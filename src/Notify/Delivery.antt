-- ===== src/Notify/Delivery.antt =====
-- The inbox of src/notify.c against a list of the texts that wait, oldest first.
pub mod Texts
use libseawolf.Base.{
  leb, get_elem?, ℕ, suc, ◌+◌, ◌-◌, ◌≤◌, ◌<◌, ◌≡◌, ◌≢◌, ◌↔◌, refl, sym, ap, ◌∙◌, Bool, true, false,
  none, some, List, [], ◌∷◌, ◌++◌, arith, length, length-append, length-take, subst, get_or,
  get_or-append_left, ◌==◌, if◌then◌else◌,
}
use libseawolf.ArrayList
use libseawolf.ArrayList.{Ptr, null, IsValid}
use libseawolf.Comm.Message.{Bytes, Message}
use libseawolf.Queue
use libseawolf.Queue.{Queue}
use libseawolf.Queue.Fifo.{items, append-items, pop_empty, pop-some}
use libseawolf.Notify.{
  init, Inbox, text_at, input_message, split_message, waiting, overrun, got, get, drain, close,
}
pub use libseawolf.Notify.Delivery.Texts.{Reads, Holds, NoBlank}
use libseawolf.Notify.Delivery.Texts.{
  last, minus, below, Reads-append, split_message_lem, split_message-none, Reads-length,
  available_lem, oldest,
}

module _ (indet : Ptr) where
  pop_oldest :
      (inbox : Inbox) (wait : Bool) (t : Bytes) (ts : List Bytes)
      → Holds inbox (t ∷ ts)
      → (p : Ptr) × (queue : Queue) × (Queue.pop indet inbox.notification_queue wait
          ≡ some (p, queue))
        × (p ≢ null)
        × (text_at inbox.strings p ≡ t)
        × Holds (record inbox { notification_queue = queue }) ts
  pop_oldest inbox wait t ts holds =
      let (p, rest, e, nonnull, text, reads) =
        oldest inbox.strings (items inbox.notification_queue) t ts holds.reads in
      let (queue, popped, e', valid) =
        pop-some indet inbox.notification_queue wait p rest holds.valid e nonnull in
      (
        p,
        queue,
        popped,
        nonnull,
        text,
        record { valid = valid; reads = subst (λ l. Reads inbox.strings l ts) (sym e') reads },
      )

  -- While the component is initialized, `Notify_inputMessage` puts the message's text behind the
  -- texts that wait, and logs when there are then five or more.
  pub input_message-Holds :
      (inbox : Inbox) (m : Message) (text : Bytes) (texts : List Bytes)
      → Holds inbox texts
      → inbox.initialized ≡ true
      → get_elem? m.components 2 ≡ some text
      → (logs : Bool) × (inbox' : Inbox) × (input_message indet m inbox ≡ some (logs, inbox'))
        × Holds inbox' (texts ++ text ∷ [])
        × (inbox'.initialized ≡ true)
        × ((logs ≡ true) ↔ (5 ≤ length texts + 1))
  unfolding input_message
  input_message-Holds inbox m text texts holds ready there =
      let a = append-items indet inbox.notification_queue (length inbox.strings + 1) holds.valid in
      let added : Inbox = record inbox {
        notification_queue = Queue.append indet inbox.notification_queue (length inbox.strings + 1);
        strings = inbox.strings ++ text ∷ [];
      } in
      let holds' : Holds added (texts ++ text ∷ []) = record {
        valid = a.1;
        reads =
            subst (λ l. Reads (inbox.strings ++ text ∷ []) l (texts ++ text ∷ [])) (sym a.0)
              (Reads-append inbox.strings (items inbox.notification_queue) texts text holds.reads);
      } in
      let size = available_lem added (texts ++ text ∷ []) holds' in
      let long = length-append texts (text ∷ []) in
      (
        leb 5 (Queue.get_size added.notification_queue),
        added,
        rw (there, input_message, ready) refl,
        holds',
        ready,
        ((λ h. ground arith), (λ h. ground arith)),
      )

  -- `Notify_get` takes the oldest text; if it is an action without a blank, a blank and a
  -- parameter, it returns these two.
  pub get-Holds :
      (inbox : Inbox) (action param : Bytes) (texts : List Bytes)
      → Holds inbox ((action ++ (b' ' ∷ param)) ∷ texts)
      → NoBlank action
      → (inbox' : Inbox) × (get indet inbox ≡ got action param inbox') × Holds inbox' texts
  unfolding get
  get-Holds inbox action param texts holds nb =
      let (p, queue, popped, _, text, holds') =
        pop_oldest inbox true (action ++ (b' ' ∷ param)) texts holds in
      (
        record inbox { notification_queue = queue },
        rw (popped, get, text, split_message_lem action param nb) refl,
        holds',
      )

  -- `Notify_get` reads behind the end of the oldest text if that text has no blank.
  pub get_overruns :
      (inbox : Inbox) (text : Bytes) (texts : List Bytes)
      → Holds inbox (text ∷ texts)
      → NoBlank text
      → get indet inbox ≡ overrun
  unfolding get
  get_overruns inbox text texts holds nb =
      let (p, queue, popped, _, read, holds') = pop_oldest inbox true text texts holds in
      rw (popped, get, read, split_message-none text nb) refl

  -- `Notify_get` on an inbox with no text waits.
  get_waits : (inbox : Inbox) → Holds inbox [] → get indet inbox ≡ waiting
  unfolding get
  get_waits inbox holds =
      rw
        (
          (pop_empty indet inbox.notification_queue holds.valid
              (nothing (items inbox.notification_queue) holds.reads)).0,
          get,
        )
        refl
    where
      nothing : (ps : List Ptr) → Reads inbox.strings ps [] → ps ≡ []
      nothing [] r = refl
      nothing (p ∷ ps) r = absurd r

  drain-Holds :
      (texts : List Bytes) (inbox : Inbox)
      → Holds inbox texts
      → (queue : Queue) × (drain indet (suc (length texts)) inbox.notification_queue ≡ some queue)
        × Holds (record inbox { notification_queue = queue }) []
  unfolding drain
  drain-Holds [] inbox holds = (
    inbox.notification_queue,
    rw
        (
          (pop_empty indet inbox.notification_queue holds.valid
              (nothing (items inbox.notification_queue) holds.reads)).1,
          drain,
        )
        refl,
    holds,
  )
    where
      nothing : (ps : List Ptr) → Reads inbox.strings ps [] → ps ≡ []
      nothing [] r = refl
      nothing (p ∷ ps) r = absurd r
  drain-Holds (t ∷ texts) inbox holds =
      let (p, queue, popped, nonnull, _, holds') = pop_oldest inbox false t texts holds in
      let (queue', drained, empty) =
        drain-Holds texts (record inbox { notification_queue = queue }) holds' in
      let other : p == null ≡ false = ground arith in
      (queue', rw (popped, drain, drained, other) refl, empty)

  -- `Notify_close` of an initialized component ends: one round more than there are texts is enough
  -- for its loop, and it leaves no text behind.
  pub close-Holds :
      (inbox : Inbox) (texts : List Bytes)
      → Holds inbox texts
      → inbox.initialized ≡ true
      → (inbox' : Inbox) × (close indet (suc (length texts)) inbox ≡ some inbox')
        × (inbox'.initialized ≡ false)
        × Holds inbox' []
  unfolding close
  close-Holds inbox texts holds ready =
      let (queue, drained, empty) = drain-Holds texts inbox holds in
      (
        record inbox { initialized = false; notification_queue = queue },
        rw (ready, drained, close) refl,
        refl,
        record { valid = empty.valid; reads = empty.reads },
      )

  -- After `Notify_init` the component is initialized and no text waits.
  init-Holds :
      (inbox : Inbox) → Holds (init indet inbox) [] × ((init indet inbox).initialized ≡ true)
  unfolding init Queue.new
  init-Holds inbox =
      (record { valid = record { allocated = refl; within = omega arith }; reads = tt }, refl)
