-- ===== src/Mcp/Finish.antt =====
-- internal/mcp/server.go: Serve and its goroutines come to an end.
use mathlib.Core.List.{Perm, append-nil}
use ghost_guard.Prelude.{
  ℕ, Bool, false, suc, ◌+◌, ◌*◌, ◌<◌, ◌≤◌, String, Option, none, some, List, [], ◌∷◌, ◌≡◌, refl,
  arith, length, length-append, Option-cases, ◌⊎◌, inl, inr,
}
use ghost_guard.Prelude.Int.{pos}
use ghost_guard.Runtime.{Runtime}
use ghost_guard.Policy.Engine.{Rego}
use ghost_guard.Mcp.{RpcRequest, Rpc, Decoded, decoded, malformed, McpServer}
use ghost_guard.Mcp.Answers.{answered, ids_of, Reach-ids}
use ghost_guard.Mcp.Serve.{
  scan_end, Serving, ServeEnd, start, take_request, take_line, Step, scans, answers, stops, cancels,
  Reach, here, next,
}

unfoldable is_open : Option ServeEnd → ℕ
is_open none = 1
is_open (some e) = 0

module _ {F : Type 0} where
  -- A line unread is a round and a goroutine at most; the end is one step more.
  unfoldable work : Serving F → ℕ
  unfolding is_open
  work s = 2 * length s.unread + length s.running + is_open s.ended

module _ {F M P : Type 0} (rt : Runtime F) (opa : Rego M P F) (rpc : Rpc F) where
  work-take_request :
      (r : Decoded (RpcRequest F)) (s : Serving F)
      → work (take_request rt opa rpc r s) ≤ suc (work s)
  unfolding work take_request
  work-take_request (malformed text) s = omega arith
  work-take_request (decoded req) s = rw (length-append) (omega arith)

  work-take_line :
      (line : String) (s : Serving F) → work (take_line rt opa rpc line s) ≤ suc (work s)
  unfolding take_line
  work-take_line line s = ground (arith, work-take_request (rpc.decode_request line) s)

  ended-take_request :
      (r : Decoded (RpcRequest F)) (s : Serving F) → (take_request rt opa rpc r s).ended ≡ s.ended
  unfolding take_request
  ended-take_request (malformed text) s = refl
  ended-take_request (decoded req) s = refl

  module _ (server : McpServer F M P) (cancellable : Bool) (failure : Option String) where
    Step-work : {s t : Serving F} → Step rt opa rpc server cancellable failure s t → work t < work s
    unfolding work is_open
    Step-work {s} (scans line rest running e) =
        let taken = work-take_line line (record s { unread = rest }) in ground (arith, e)
    Step-work {s} (answers now before later req e) =
        rw (e, length-append, length-append) (omega arith)
    Step-work {s} (stops running e) = rw running (omega arith)
    Step-work {s} (cancels may running) = rw running (omega arith)

    -- The number of steps.
    unfoldable pub steps : {s t : Serving F} → Reach rt opa rpc server cancellable failure s t → ℕ
    steps here = 0
    steps (next r st) = suc (steps r)

    steps-work :
        {s t : Serving F} (r : Reach rt opa rpc server cancellable failure s t)
        → steps r + work t ≤ work s
    unfolding steps
    steps-work here = omega arith
    steps-work (next r st) = let first = steps-work r in let last = Step-work st in omega arith

  ended-take_line : (line : String) (s : Serving F) → (take_line rt opa rpc line s).ended ≡ s.ended
  unfolding take_line
  ended-take_line line s = ground (arith, ended-take_request (rpc.decode_request line) s)

  module _ (server : McpServer F M P) (failure : Option String) where
    -- Where Serve has returned it has read all lines and met the end of the scanner.
    EndsAtLast : Serving F → Type 0
    EndsAtLast s =
        (e : ServeEnd)
        → s.ended ≡ some e
        → (s.ended ≡ some (scan_end rt opa rpc failure)) × (s.unread ≡ [])

    Step-EndsAtLast :
        {s t : Serving F} → Step rt opa rpc server false failure s t → EndsAtLast s → EndsAtLast t
    unfolding EndsAtLast
    Step-EndsAtLast {s} (scans line rest running e) h =
        λ end at. absurd (ground (arith, ended-take_line line (record s { unread = rest })))
    Step-EndsAtLast (answers now before later req e) h = h
    Step-EndsAtLast (stops running e) h = λ end at. (refl, e)
    Step-EndsAtLast (cancels may running) h = absurd (ground arith)

    Reach-EndsAtLast :
        (lines : List String) {s : Serving F}
        → Reach rt opa rpc server false failure (start lines) s
        → EndsAtLast s
    unfolding EndsAtLast start
    Reach-EndsAtLast lines here = λ end at. absurd (ground arith)
    Reach-EndsAtLast lines (next r st) = Step-EndsAtLast st (Reach-EndsAtLast lines r)

    -- Serve has met the end of its input and returned with it, no goroutine is at work, and every line is
    -- answered.
    abbrev pub IsFinished : List String → Serving F → Type 0
    IsFinished lines s =
        (s.ended ≡ some (scan_end rt opa rpc failure))
        × (s.unread ≡ [])
        × (s.running ≡ [])
        × Perm (answered rt opa rpc s) (ids_of rt opa rpc lines)

    -- A line is read, a request answered or the end met, whichever of them is open.
    some_step :
        (lines : List String) (s : Serving F)
        → Reach rt opa rpc server false failure (start lines) s
        → (unread : List String) → s.unread ≡ unread
        → (running : List (RpcRequest F)) → s.running ≡ running
        → ((t : Serving F) × Step rt opa rpc server false failure s t) ⊎ IsFinished lines s
    unfolding EndsAtLast ids_of
    some_step lines s r unread e (req ∷ rest) more = inl (_, answers (pos 0) [] rest req more)
    some_step lines s r unread e [] idle = elim (Option-cases s.ended) [
      | inl open_yet ↦ inl (more_input unread e open_yet)
      | inr (end, ended) ↦
          let (at_end, read) = Reach-EndsAtLast lines r end ended in
          let all = Reach-ids rt opa rpc server false failure lines s r in
          let done = rw (idle, read, append-nil) at all in inr (at_end, read, idle, done)
    ]
      where
        more_input :
            (unread : List String)
            → s.unread ≡ unread
            → s.ended ≡ none
            → (t : Serving F) × Step rt opa rpc server false failure s t
        more_input [] e running = (_, stops running e)
        more_input (line ∷ rest) e running = (_, scans line rest running e)

    -- Serve is given `lines` and a context that is never done, as RunMCPFromMain gives it: however its
    -- rounds and its goroutines interleave it comes to at most two steps for each line and one more; and
    -- a state with no next step is one in which Serve has returned the end of its input, no goroutine is
    -- at work, and the identifiers answered are those that the lines ask for.
    pub Reach-finishes :
        (lines : List String) (s : Serving F)
        (r : Reach rt opa rpc server false failure (start lines) s)
        → (steps server false failure r ≤ 2 * length lines + 1)
          × (((t : Serving F) × Step rt opa rpc server false failure s t) ⊎ IsFinished lines s)
    unfolding work start is_open
    Reach-finishes lines s r =
        let bound = steps-work server false failure r in
        (omega arith, some_step lines s r s.unread refl s.running refl)
