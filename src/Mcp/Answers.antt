-- ===== src/Mcp/Answers.antt =====
-- internal/mcp/server.go: every line is answered once, with the identifier of its request, whatever the
-- order in which the goroutines end.
use mathlib.Core.List.{Perm, append_assoc, perm_middle, map-append}
use mathlib.Core.List.Perm
use Prim.Native.String.{len}
use ghost_guard.Prelude.{
  String, Bool, Option, List, [], ◌∷◌, ◌++◌, map, ◌≡◌, arith, if◌then◌else◌, eqb, Bool-cases, inl,
  inr,
}
use ghost_guard.Prelude.Int.{ℤ}
use ghost_guard.Runtime.{Runtime}
use ghost_guard.Model.{Json, null}
use ghost_guard.Policy.Engine.{Rego}
use ghost_guard.Mcp.{
  RpcRequest, RpcResponse, Rpc, Decoded, decoded, malformed, McpServer, handle_request, respond,
}
use ghost_guard.Mcp.Serve.{
  Serving, start, take_request, take_line, Step, scans, answers, stops, cancels, Reach, here, next,
}

-- One that was in work is answered.
move_middle :
    {A : Type 0} (done before later unread : List A) (x : A)
    → Perm
        ((done ++ x ∷ []) ++ ((before ++ later) ++ unread))
        (done ++ ((before ++ x ∷ later) ++ unread))
move_middle done before later unread x =
    rw (append_assoc done (x ∷ []), append_assoc before later, append_assoc before (x ∷ later))
      (Perm.append_left done (Perm.symm (perm_middle before (later ++ unread))))

module _ {F M P : Type 0} (rt : Runtime F) (opa : Rego M P F) (rpc : Rpc F) where
  -- The identifiers that a line asks to be answered: none for an empty line, null for a line that is
  -- no request.
  abbrev pub ids_of_decoded : Decoded (RpcRequest F) → List (Json F)
  ids_of_decoded (malformed text) = null ∷ []
  ids_of_decoded (decoded req) = req.id ∷ []

  unfoldable pub ids_of_line : String → List (Json F)
  ids_of_line line = if eqb (len line) 0 then [] else ids_of_decoded (rpc.decode_request line)

  unfoldable pub ids_of : List String → List (Json F)
  ids_of [] = []
  ids_of (line ∷ lines) = ids_of_line line ++ ids_of lines

  abbrev pub answered : Serving F → List (Json F)
  answered s = map (λ (r : RpcResponse F). r.id) s.responses

  abbrev pub open_ids : Serving F → List (Json F)
  open_ids s = map (λ (r : RpcRequest F). r.id) s.running

  id-handle_request :
      (now : ℤ) (req : RpcRequest F) (server : McpServer F M P)
      → (handle_request rt opa rpc now req server).id ≡ req.id
  unfolding handle_request respond
  id-handle_request now req server = ground arith

  -- All identifiers: those answered, those in work and those unread.
  ids : Serving F → List (Json F)
  ids s = answered s ++ (open_ids s ++ ids_of s.unread)

  ids-take_request :
      (r : Decoded (RpcRequest F)) (s : Serving F)
      → Perm
          (ids (take_request rt opa rpc r s))
          (answered s ++ (open_ids s ++ (ids_of_decoded r ++ ids_of s.unread)))
  unfolding ids take_request
  ids-take_request (malformed text) s =
      rw (map-append, append_assoc) (Perm.append_left _ (Perm.symm (perm_middle _ _)))
  ids-take_request (decoded req) s = rw (map-append, append_assoc) (Perm.refl _)

  ids-take_line :
      (line : String) (rest : List String) (s : Serving F)
      → s.unread ≡ line ∷ rest
      → Perm (ids (take_line rt opa rpc line (record s { unread = rest }))) (ids s)
  unfolding ids take_line ids_of ids_of_line
  ids-take_line line rest s e = elim (Bool-cases (eqb (len line) 0)) [
    | inl empty ↦ rw (e, empty) (Perm.refl _)
    | inr full ↦
        rw (e, full) (ids-take_request (rpc.decode_request line) (record s { unread = rest }))
  ]

  module _ (server : McpServer F M P) (cancellable : Bool) (failure : Option String) where
    Step-ids :
        {s t : Serving F} → Step rt opa rpc server cancellable failure s t → Perm (ids t) (ids s)
    unfolding ids
    Step-ids {s} (scans line rest running e) = ids-take_line line rest s e
    Step-ids {s} (answers now before later req e) =
        rw (e, id-handle_request now req server, map-append, map-append, map-append)
          (move_middle (answered s) (map (λ r. r.id) before) (map (λ r. r.id) later)
            (ids_of s.unread) req.id)
    Step-ids (stops running e) = Perm.refl _
    Step-ids (cancels may running) = Perm.refl _

    -- Serve is given `lines`, and its goroutines have worked in any order up to `s`: the identifiers of
    -- the responses, of the requests in work and of the lines unread are together those that the lines
    -- ask for, each as often as there.
    pub Reach-ids :
        (lines : List String) (s : Serving F)
        → Reach rt opa rpc server cancellable failure (start lines) s
        → Perm (answered s ++ (open_ids s ++ ids_of s.unread)) (ids_of lines)
    unfolding ids start
    Reach-ids lines s here = Perm.refl _
    Reach-ids lines s (next r st) = Perm.trans (Step-ids st) (Reach-ids lines _ r)
