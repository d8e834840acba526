-- ===== src/Dashboard/Clients.antt =====
-- The clients of the event stream: what handleSSE's loop of a client reads from its channel, while
-- events are recorded and other clients come, read and go.
use mathlib.Core.Path.{subst}
use mathlib.Core.List.{append_assoc, append-nil}
use ghost_guard.Prelude.{
  ℕ, ◌<◌, ◌-◌, suc, ◌≡◌, refl, sym, ap, ◌∙◌, true, false, Option, none, some, List, [], ◌∷◌, ◌++◌,
  map, arith, if◌then◌else◌, length, length-append, eqb, Bool-cases, inl, inr,
}
use ghost_guard.Prelude.Int.{ℤ}
use ghost_guard.Model.{InterceptionEvent}
use ghost_guard.Dashboard.{
  Client, Dashboard, offer, record_event, subscribe, without, unsubscribe, receive_from, receive,
  drop_first,
}

-- What happens to a dashboard: an event is recorded, a client comes, reads its channel, or goes.
pub data Happening (F : Type 0) : Type 0 where
  recorded : ℤ → InterceptionEvent F → Happening F
  joined : ℕ → Happening F
  reads : ℕ → Happening F
  left : ℕ → Happening F

module _ {F : Type 0} where
  -- A reader whose channel is empty waits, so that its reading then is of no event.
  abbrev pub happen : Happening F → Dashboard F → Dashboard F
  happen (recorded now e) d = record_event now e d
  happen (joined j) d = subscribe j d
  happen (reads j) d = receive j d
  happen (left j) d = unsubscribe j d

  abbrev pub happen_all : List (Happening F) → Dashboard F → Dashboard F
  happen_all [] d = d
  happen_all (h ∷ hs) d = happen_all hs (happen h d)

  -- The events that stand in a channel, if a client has it.
  abbrev pub waiting : ℕ → List (Client F) → Option (List (InterceptionEvent F))
  waiting channel [] = none
  waiting channel (c ∷ cs) =
      let rest = waiting channel cs in if eqb c.channel channel then some c.buffer else rest

  abbrev first_of : Option (List (InterceptionEvent F)) → List (InterceptionEvent F)
  first_of none = []
  first_of (some []) = []
  first_of (some (e ∷ es)) = e ∷ []

  -- The event that a reader of the channel is given, where there is one.
  abbrev taken : ℕ → Happening F → Dashboard F → List (InterceptionEvent F)
  taken channel (reads j) d = if eqb j channel then first_of (waiting channel d.clients) else []
  taken channel (recorded now e) d = []
  taken channel (joined j) d = []
  taken channel (left j) d = []

  -- The events that the reader of the channel is given, in their order.
  abbrev pub received : ℕ → List (Happening F) → Dashboard F → List (InterceptionEvent F)
  received channel [] d = []
  received channel (h ∷ hs) d = taken channel h d ++ received channel hs (happen h d)

  abbrev pub recorded_events : List (Happening F) → List (InterceptionEvent F)
  recorded_events [] = []
  recorded_events (recorded now e ∷ hs) = e ∷ recorded_events hs
  recorded_events (joined j ∷ hs) = recorded_events hs
  recorded_events (reads j ∷ hs) = recorded_events hs
  recorded_events (left j ∷ hs) = recorded_events hs

  -- The reader of the channel stays, it alone has the channel, and it is never 100 events behind when
  -- one more is recorded; `lag` is how many it is behind at first.
  abbrev pub KeepsUp : ℕ → ℕ → List (Happening F) → Type 0
  KeepsUp channel lag [] = Unit
  KeepsUp channel lag (recorded now e ∷ hs) = (lag < 100) × KeepsUp channel (suc lag) hs
  KeepsUp channel lag (joined j ∷ hs) = (eqb j channel ≡ false) × KeepsUp channel lag hs
  KeepsUp channel lag (reads j ∷ hs) = KeepsUp channel (if eqb j channel then lag - 1 else lag) hs
  KeepsUp channel lag (left j ∷ hs) = (eqb j channel ≡ false) × KeepsUp channel lag hs

  waiting-offer :
      (channel : ℕ) (e : InterceptionEvent F) (cs : List (Client F))
      (b : List (InterceptionEvent F))
      → waiting channel cs ≡ some b
      → length b < 100
      → waiting channel (map (offer e) cs) ≡ some (b ++ e ∷ [])
  unfolding offer
  waiting-offer channel e [] b at room = ground arith
  waiting-offer channel e (c ∷ cs) b at room = elim (Bool-cases (eqb c.channel channel)) [
    | inl same ↦ ground (arith, waiting-offer channel e cs b)
    | inr other ↦ ground (arith, waiting-offer channel e cs b)
  ]

  waiting-receive_from :
      (channel j : ℕ) (cs : List (Client F)) (b : List (InterceptionEvent F))
      → eqb j channel ≡ true
      → waiting channel cs ≡ some b
      → waiting channel (receive_from j cs) ≡ some (drop_first b)
  unfolding receive_from
  waiting-receive_from channel j [] b same at = ground arith
  waiting-receive_from channel j (c ∷ cs) b same at = elim (Bool-cases (eqb c.channel channel)) [
    | inl here ↦ ground (arith, here, same, at)
    | inr other ↦ ground (arith, waiting-receive_from channel j cs b)
  ]

  waiting-receive_other :
      (channel j : ℕ) (cs : List (Client F))
      → eqb j channel ≡ false
      → waiting channel (receive_from j cs) ≡ waiting channel cs
  unfolding receive_from
  waiting-receive_other channel j [] other = refl
  waiting-receive_other channel j (c ∷ cs) other =
      ground (arith, waiting-receive_other channel j cs other)

  waiting-without :
      (channel j : ℕ) (cs : List (Client F))
      → eqb j channel ≡ false
      → waiting channel (without j cs) ≡ waiting channel cs
  unfolding without
  waiting-without channel j [] other = refl
  waiting-without channel j (c ∷ cs) other = ground (arith, waiting-without channel j cs other)

  length-snoc :
      (b : List (InterceptionEvent F)) (e : InterceptionEvent F)
      → length (b ++ e ∷ []) ≡ suc (length b)
  length-snoc b e = ground (arith, length-append b (e ∷ []))

  length-drop_first :
      (channel j : ℕ) (b : List (InterceptionEvent F))
      → eqb j channel ≡ true
      → (if eqb j channel then length b - 1 else length b) ≡ length (drop_first b)
  length-drop_first channel j [] same = rw same refl
  length-drop_first channel j (e ∷ b) same = rw same (omega arith)

  length-other :
      (channel j : ℕ) (b : List (InterceptionEvent F))
      → eqb j channel ≡ false
      → (if eqb j channel then length b - 1 else length b) ≡ length b
  length-other channel j b other = rw other refl

  first_of-drop_first : (b : List (InterceptionEvent F)) → first_of (some b) ++ drop_first b ≡ b
  first_of-drop_first [] = refl
  first_of-drop_first (e ∷ b) = refl

  -- A channel with events in it, after some have happened: what is read of it and what is left.
  waiting-happen_all :
      (channel : ℕ) (hs : List (Happening F)) (d : Dashboard F) (b : List (InterceptionEvent F))
      → waiting channel d.clients ≡ some b
      → KeepsUp channel (length b) hs
      → (rest : List (InterceptionEvent F)) × (waiting channel (happen_all hs d).clients
          ≡ some rest)
        × (received channel hs d ++ rest ≡ b ++ recorded_events hs)
  unfolding record_event subscribe receive unsubscribe
  waiting-happen_all channel [] d b at k = (b, at, sym (append-nil b))
  waiting-happen_all channel (recorded now e ∷ hs) d b at (room, k) =
      let (rest, left_over, all) =
        waiting-happen_all channel hs (record_event now e d) (b ++ e ∷ [])
          (waiting-offer channel e d.clients b at room) (rw (length-snoc b e) k) in
      (rest, left_over, all ∙ append_assoc b (e ∷ []) (recorded_events hs))
  waiting-happen_all channel (joined j ∷ hs) d b at (other, k) =
      waiting-happen_all channel hs (subscribe j d) b (rw other at) k
  waiting-happen_all channel (left j ∷ hs) d b at (other, k) =
      waiting-happen_all channel hs (unsubscribe j d) b
        (waiting-without channel j d.clients other ∙ at) k
  waiting-happen_all channel (reads j ∷ hs) d b at k = elim (Bool-cases (eqb j channel)) [
    | inl same ↦
        let (rest, left_over, all) =
          waiting-happen_all channel hs (receive j d) (drop_first b)
            (waiting-receive_from channel j d.clients b same at)
            (subst (λ lag. KeepsUp channel lag hs) (length-drop_first channel j b same) k) in
        (
          rest,
          left_over,
          rw (same, at)
              (append_assoc (first_of (some b)) (received channel hs (receive j d)) rest
                ∙ ap (λ es. first_of (some b) ++ es) all
                ∙ sym (append_assoc (first_of (some b)) (drop_first b) (recorded_events hs))
                ∙ ap (λ es. es ++ recorded_events hs) (first_of-drop_first b)),
        )
    | inr other ↦ rw other (
        waiting-happen_all channel hs (receive j d) b
          (waiting-receive_other channel j d.clients other ∙ at)
          (subst (λ lag. KeepsUp channel lag hs) (length-other channel j b other) k))
  ]

-- Whatever has happened to a dashboard, a client that joins, that reads its channel and never is 100
-- events behind when one more is recorded, while others come, read and go: what it has read and what
-- still waits in its channel are the events recorded since it joined, each once and in their order.
pub happen_all-subscribe :
    {F : Type 0} (channel : ℕ) (hs : List (Happening F)) (d : Dashboard F)
    → KeepsUp channel 0 hs
    → (rest : List (InterceptionEvent F)) × (waiting channel
          (happen_all hs (subscribe channel d)).clients
        ≡ some rest)
      × (received channel hs (subscribe channel d) ++ rest ≡ recorded_events hs)
unfolding subscribe
happen_all-subscribe channel hs d k =
    waiting-happen_all channel hs (subscribe channel d) [] (ground arith) k
