-- ===== src/Hub/Net/Thread.antt =====
-- The thread of a client, `Hub_Net_clientThread` of src/hub/netloop.c, against the messages that the
-- client has sent.
use libseawolf.Base.{
  ℕ, zero, suc, ◌<◌, ◌≡◌, refl, sym, ap, Bool, true, false, none, some, List, [], ◌∷◌, ◌++◌, arith,
  length, if◌then◌else◌, Bool-cases, Option-cases, inl, inr,
}
use libseawolf.MemPool.{Alloc}
use libseawolf.Comm.Message.{Bytes, Message, pack_message}
use libseawolf.Comm.Wire.{Fits}
use libseawolf.Hub.State.{Hub, Libc, is_closed}
use libseawolf.Hub.Client.{mark_closed}
use libseawolf.Hub.Process.{process}
use libseawolf.Hub.Net.{Served, ended, stuck, client_thread}
use libseawolf.Hub.Net.Receive.{Ready, receive-pack, receive_message-lost}
use libseawolf.Hub.Net.Receive.Space.{Fresh, Small}

-- The bytes of a list of messages, each packed in an allocation.
unfoldable pub wire : Alloc → List Message → Bytes
wire alloc [] = []
wire alloc (m ∷ ms) = (pack_message alloc m).0.bytes ++ wire alloc ms

abbrev pub AllFit : List Message → Type 0
AllFit [] = Unit
AllFit (m ∷ ms) = (Fits m × Small m) × AllFit ms

module _ {V : Type 0} (libc : Libc V) where
  -- The processing of a list of messages one after the other, until the client is closed; at the end
  -- of the messages it is.
  unfoldable pub serve : ℕ → List Message → Hub V → Served V
  serve c [] h = ended (mark_closed c h)
  serve c (m ∷ ms) h =
      if is_closed (h.client c).state
      then ended h
      else elim (process libc c m h) [ none ↦ stuck | some (code, h') ↦ serve c ms h' ]

  mark_closed_closed :
      (c : ℕ) (h : Hub V) → is_closed (h.client c).state ≡ true → mark_closed c h ≡ h
  unfolding mark_closed
  mark_closed_closed c h e = rw e refl

  mark_closed_twice : (c : ℕ) (h : Hub V) → mark_closed c (mark_closed c h) ≡ mark_closed c h
  mark_closed_twice c h =
      mark_closed_closed c (mark_closed c h) (now_closed (is_closed (h.client c).state) refl)
    where
      now_closed :
          (b : Bool)
          → is_closed (h.client c).state ≡ b
          → is_closed ((mark_closed c h).client c).state ≡ true
      now_closed true e = unfold mark_closed in ground arith
      now_closed false e = unfold mark_closed in ground arith

  module _ (chunk : ℕ → ℕ) (alloc : ℕ → Alloc) where
    thread_end :
        (rounds c : ℕ) (h : Hub V) (k : ℕ)
        → Ready chunk
        → Fresh (alloc k)
        → client_thread libc chunk alloc (suc rounds) c h k [] ≡ ended (mark_closed c h)
    unfolding client_thread
    thread_end rounds c h k ready fresh = elim (Bool-cases (is_closed (h.client c).state)) [
      | inl t ↦ rw t (ap ended (sym (mark_closed_closed c h t)))
      | inr f ↦
          let (k', none_left) =
            receive_message-lost chunk (alloc k) c h k [] ready fresh (omega arith) (omega arith) in
          rw (f, client_thread, none_left) (ap ended (mark_closed_twice c h))
    ]

    -- The thread of a client that has sent a list of messages, in whatever chunks they arrive, does
    -- what the processing of the messages one after the other does, and one round more than there
    -- are messages is enough for its loop, if no component holds a NUL, the fields fit 16 bits, and
    -- each packed message and its parts fit one chunk together.
    pub client_thread-serve :
        (rounds c : ℕ) (ms : List Message) (h : Hub V) (k : ℕ) (a : Alloc)
        → Ready chunk
        → ((n : ℕ) → Fresh (alloc n))
        → AllFit ms
        → length ms < rounds
        → client_thread libc chunk alloc rounds c h k (wire a ms) ≡ serve c ms h
    unfolding client_thread wire serve
    client_thread-serve zero c ms h k a ready fresh fits enough = absurd (omega arith)
    client_thread-serve (suc rounds) c [] h k a ready fresh fits enough =
        thread_end rounds c h k ready (fresh k)
    client_thread-serve (suc rounds) c (m ∷ ms) h k a ready fresh ((fit, small), fits) enough =
        elim (Bool-cases (is_closed (h.client c).state)) [
          | inl t ↦ rw t refl
          | inr f ↦
              let (a', k', got_m) =
                receive-pack chunk (alloc k) a c h m k (wire a ms) ready (fresh k) fit small in
              elim (Option-cases (process libc c m h)) [
                | inl e ↦ rw (f, client_thread, got_m, e, serve) refl
                | inr ((code, h'), e) ↦
                    rw (f, client_thread, got_m, e, serve)
                      (client_thread-serve rounds c ms h' k' a ready fresh fits (omega arith))
              ]
        ]
