-- ===== src/Notify/Delivery/Texts.antt =====
-- The texts that wait in the inbox of src/notify.c.
use libseawolf.Base.{
  ℕ, suc, ◌+◌, ◌-◌, ◌≤◌, ◌<◌, ◌≡◌, ◌≢◌, refl, ap, ◌∙◌, none, some, List, [], ◌∷◌, ◌++◌, arith,
  length, length-append, length-take, get_or, get_or-append_left,
}
use libseawolf.ArrayList
use libseawolf.ArrayList.{Ptr, null, IsValid}
use libseawolf.Comm.Message.{Bytes}
use libseawolf.Queue
use libseawolf.Queue.{Queue}
use libseawolf.Queue.Fifo.{items}
use libseawolf.Notify.{Inbox, text_at, split_message}

-- The pointers of a queue read as the given texts.
abbrev pub Reads : List Bytes → List Ptr → List Bytes → Type 0
Reads strings [] [] = Unit
Reads strings [] (t ∷ ts) = ⊥
Reads strings (p ∷ ps) [] = ⊥
Reads strings (p ∷ ps) (t ∷ ts) =
    ((p ≢ null) × (p ≤ length strings) × (text_at strings p ≡ t)) × Reads strings ps ts

-- The inbox holds the given texts, oldest first.
pub record Holds (inbox : Inbox) (texts : List Bytes) : Type 0 where
  pub valid : IsValid inbox.notification_queue.list
  pub reads : Reads inbox.strings (items inbox.notification_queue) texts

pub last : (strings : List Bytes) {t : Bytes} → get_or (strings ++ t ∷ []) (length strings) [] ≡ t
last [] = refl
last (s ∷ strings) = last strings

pub minus : (n : ℕ) → n + 1 - 1 ≡ n
minus n = omega arith

pub below : (p n : ℕ) → p ≢ 0 → p ≤ n → p - 1 < n
below p n h h' = omega arith

pub Reads-append :
    (strings : List Bytes) (ps : List Ptr) (ts : List Bytes) (t : Bytes)
    → Reads strings ps ts
    → Reads (strings ++ t ∷ []) (ps ++ (length strings + 1) ∷ []) (ts ++ t ∷ [])
Reads-append strings [] [] t r = (
  (
    (λ e. omega arith),
    omega (arith, length-append strings (t ∷ [])),
    ap (λ i. get_or (strings ++ t ∷ []) i []) (minus (length strings)) ∙ last strings,
  ),
  tt,
)
Reads-append strings [] (u ∷ ts) t r = absurd r
Reads-append strings (p ∷ ps) [] t r = absurd r
Reads-append strings (p ∷ ps) (u ∷ ts) t r = (
  (
    r.0.0,
    omega (arith, r.0.1, length-append strings (t ∷ [])),
    get_or-append_left strings (t ∷ []) (p - 1) [] (below p (length strings) r.0.0 r.0.1) ∙ r.0.2,
  ),
  Reads-append strings ps ts t r.1,
)

-- A text with no blank.
abbrev pub NoBlank : Bytes → Type 0
NoBlank [] = Unit
NoBlank (b ∷ bs) = (b ≢ b' ') × NoBlank bs

pub split_message_lem :
    (action param : Bytes)
    → NoBlank action
    → split_message (action ++ (b' ' ∷ param)) ≡ some (action, param)
unfolding split_message
split_message_lem [] param h = refl
split_message_lem (b ∷ action) param h =
    rw (split_message_lem action param h.1, split_message) (ground arith)

pub split_message-none : (text : Bytes) → NoBlank text → split_message text ≡ none
unfolding split_message
split_message-none [] h = refl
split_message-none (b ∷ text) h = rw (split_message-none text h.1, split_message) (ground arith)

pub Reads-length :
    (strings : List Bytes) (ps : List Ptr) (ts : List Bytes)
    → Reads strings ps ts
    → length ps ≡ length ts
Reads-length strings [] [] r = refl
Reads-length strings [] (t ∷ ts) r = absurd r
Reads-length strings (p ∷ ps) [] r = absurd r
Reads-length strings (p ∷ ps) (t ∷ ts) r = ap suc (Reads-length strings ps ts r.1)

pub available_lem :
    (inbox : Inbox) (texts : List Bytes)
    → Holds inbox texts
    → Queue.get_size inbox.notification_queue ≡ length texts
unfolding Queue.get_size ArrayList.get_size
available_lem inbox texts holds =
    let list = inbox.notification_queue.list in
    omega (
      arith,
      holds.valid,
      Reads-length inbox.strings (items inbox.notification_queue) texts holds.reads,
      length-take list.items list.base,
    )

-- The oldest pointer of an inbox that is not empty.
pub oldest :
    (strings : List Bytes) (ps : List Ptr) (t : Bytes) (ts : List Bytes)
    → Reads strings ps (t ∷ ts)
    → (p : Ptr) × (rest : List Ptr) × (ps ≡ p ∷ rest)
      × (p ≢ null)
      × (text_at strings p ≡ t)
      × Reads strings rest ts
oldest strings [] t ts r = absurd r
oldest strings (p ∷ ps) t ts r = (p, ps, refl, r.0.0, r.0.2, r.1)
