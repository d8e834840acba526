-- ===== src/Detector/Analyze/Tools.antt =====
-- What the detector remembers, against the whole history of the calls that it analysed.
use ghost_guard.Prelude.{
  ℕ, suc, ◌+◌, ◌-◌, ◌≤◌, ◌<◌, ◌^◌, String, Bool, true, false, ◌||◌, ◌≡◌, refl, sym, ◌∙◌, ap, List,
  [], ◌∷◌, ◌++◌, map, arith, ◌==◌, if◌then◌else◌, ◌⊎◌, inl, inr, Bool-cases, length, drop, any,
  length-append, length-drop, drop-append, drop-one_drop, any-snoc,
}
use mathlib.Core.List.{append_assoc, append-nil}
use native.Mathlib.Nat.{zero-sub}
use ghost_guard.Detector.Persist.{BaselineData, ReadFile}
use ghost_guard.Prelude.{Option}
use ghost_guard.Prelude.Int.{ℤ, pos, negsuc, pos_part, neg_part, ltb_ℤ, add64, add64-suc}
use ghost_guard.Dict.{Dict, lookup, insert, get_or}
use ghost_guard.Dict.Laws.{lookup-insert}
use ghost_guard.Model.{ToolCall}
use ghost_guard.Runtime.{Runtime}
use ghost_guard.Detector.Baseline.{update}
use ghost_guard.Detector.Analyze.{
  Detector, DetectorConfig, push_tool, record_tool, check_rate, analyze, new_detector,
}

-- The last `max` names of a history.
abbrev pub recent : ℤ → List String → List String
recent max names = drop (length names - pos_part max) names

push_tool_lem :
    (max : ℤ) (k : ℕ) (l : List String)
    → (length l ≡ k + pos_part max + 1) ⊎ ((k ≡ 0) × (1 ≤ length l) × (length l ≤ pos_part max))
    → (pos_part max ≡ 0) ⊎ (neg_part max ≡ 0)
    → (if ltb_ℤ max (pos (length (drop k l))) then drop 1 (drop k l) else drop k l)
      ≡ drop (length l - pos_part max) l
push_tool_lem max k l (inl e) sign = elim (Bool-cases (ltb_ℤ max (pos (length (drop k l))))) [
  | inl cut ↦
      let one_more : suc k ≡ length l - pos_part max = omega arith in
      rw cut (drop-one_drop k l ∙ ap (λ j. drop j l) one_more)
  | inr fits ↦ absurd (ground (arith, length-drop k l))
]
push_tool_lem max k l (inr (z, some_left, h)) sign =
    elim (Bool-cases (ltb_ℤ max (pos (length (drop k l))))) [
      | inl cut ↦ absurd (ground (arith, length-drop k l))
      | inr fits ↦
          let none_gone : k ≡ length l - pos_part max = omega arith in
          rw fits (ap (λ j. drop j l) none_gone)
    ]

sign_cases : (a : ℤ) → (pos_part a ≡ 0) ⊎ (neg_part a ≡ 0)
sign_cases (pos n) = inr refl
sign_cases (negsuc n) = inl refl

-- A push keeps the last `max` names of the history.
pub push_tool-recent :
    (max : ℤ) (name : String) (names : List String)
    → push_tool max name (recent max names) ≡ recent max (names ++ name ∷ [])
unfolding push_tool
push_tool-recent max name names =
    rw (← drop-append (length names - pos_part max) names (name ∷ []) (omega arith)) (
      push_tool_lem max (length names - pos_part max) (names ++ name ∷ [])
        (ground (arith, length-append names (name ∷ []))) (sign_cases max))

recent-nil : (max : ℤ) → [] ≡ recent max []
recent-nil max = rw zero-sub

abbrev pub knows : String → Dict Bool → Bool
knows name known = get_or false name known

knows-insert :
    (name j : String) (known : Dict Bool)
    → knows j (insert name true known) ≡ (knows j known || name == j)
unfolding get_or
knows-insert name j known = ground (arith, lookup-insert name j true known)

-- The state of a detector that has analysed the calls of the tools `names`, in this order, since it
-- was made with no stored baseline.
pub record Tracks {F : Type 0} (config : DetectorConfig F) (names : List String) (d : Detector F)
    : Type 0 where
  pub configured : d.config ≡ config
  pub counted : d.rate_baseline.count ≡ pos (length names)
  pub remembered : d.previous_tools ≡ recent config.max_prev_tools names
  pub known : (name : String) → knows name d.known_tools ≡ any (λ n. n == name) names

module _ {F : Type 0} (rt : Runtime F) (order : ℕ → List ℤ → List ℤ) where
  pub check_rate-kept :
      (at : ℕ → ℤ) (tc : ToolCall F) (d : Detector F)
      → ((check_rate rt at tc d).0.config ≡ d.config)
        × ((check_rate rt at tc d).0.previous_tools ≡ d.previous_tools)
        × ((check_rate rt at tc d).0.known_tools ≡ d.known_tools)
        × ((check_rate rt at tc d).0.rate_baseline.count ≡ add64 d.rate_baseline.count (pos 1))
  unfolding check_rate update
  check_rate-kept at tc d = ground arith

  -- Every analysis takes the detector of a history to that of the longer history.
  pub analyze-Tracks :
      (config : DetectorConfig F) (names : List String) (at : ℕ → ℤ) (tc : ToolCall F)
      (d : Detector F)
      → length names < 2 ^ 63 - 1
      → Tracks config names d
      → Tracks config (names ++ tc.name ∷ []) (analyze rt order at tc d).0
  unfolding analyze record_tool
  analyze-Tracks config names at tc d h t =
      let (same_config, same_prev, same_known, one_more) = check_rate-kept at tc d in
      record {
        configured = same_config ∙ t.configured;
        counted =
            one_more
            ∙ ap (λ n. add64 n (pos 1)) t.counted
            ∙ add64-suc (length names) h
            ∙ ap pos (sym (length-append names (tc.name ∷ [])));
        remembered =
            rw (same_config ∙ t.configured, same_prev ∙ t.remembered)
              (push_tool-recent config.max_prev_tools tc.name names);
        known = λ name.
            ap (λ m. knows name (insert tc.name true m)) same_known
            ∙ knows-insert tc.name name d.known_tools
            ∙ ap (λ b. b || tc.name == name) (t.known name)
            ∙ sym (any-snoc (λ n. n == name) names tc.name);
      }

  -- The calls of a list, analysed one after the other; `at i` is the clock during the `i`th.
  unfoldable pub analyze_all : (ℕ → ℕ → ℤ) → List (ToolCall F) → Detector F → Detector F
  analyze_all at [] d = d
  analyze_all at (tc ∷ tcs) d = analyze_all (λ i. at (suc i)) tcs (analyze rt order (at 0) tc d).0

  analyze_all-Tracks :
      (config : DetectorConfig F) (names : List String) (at : ℕ → ℕ → ℤ) (tcs : List (ToolCall F))
      (d : Detector F)
      → length names + length tcs < 2 ^ 63
      → Tracks config names d
      → Tracks config (names ++ map (λ tc. tc.name) tcs) (analyze_all at tcs d)
  unfolding analyze_all
  analyze_all-Tracks config names at [] d h t = rw (append-nil names) t
  analyze_all-Tracks config names at (tc ∷ tcs) d h t =
      rw (← append_assoc names (tc.name ∷ []) (map (λ tc. tc.name) tcs)) (
        analyze_all-Tracks config (names ++ tc.name ∷ []) (λ i. at (suc i)) tcs
          (analyze rt order (at 0) tc d).0 (omega (arith, length-append {0} names (tc.name ∷ [])))
          (analyze-Tracks config names (at 0) tc d (omega arith) t))

  new_detector-Tracks :
      (parse : String → Option (BaselineData F)) (now : ℤ) (file : ReadFile)
      (config : DetectorConfig F)
      → config.baseline_path ≡ ""
      → Tracks config [] (new_detector rt parse now file config)
  unfolding new_detector get_or lookup
  new_detector-Tracks parse now file config e = record {
    configured = refl;
    counted = rw e refl;
    remembered = recent-nil config.max_prev_tools;
    known = λ name. refl;
  }

  -- A detector made with no baseline file that has analysed the calls `tcs`, fewer than 2 ^ 63, has
  -- counted them, knows their tools and no other, and remembers the last `max_prev_tools` of them.
  pub analyze_all-new_detector-Tracks :
      (parse : String → Option (BaselineData F)) (now : ℤ) (file : ReadFile)
      (config : DetectorConfig F) (at : ℕ → ℕ → ℤ) (tcs : List (ToolCall F))
      → config.baseline_path ≡ ""
      → length tcs < 2 ^ 63
      → Tracks config
          (map (λ tc. tc.name) tcs)
          (analyze_all at tcs (new_detector rt parse now file config))
  analyze_all-new_detector-Tracks parse now file config at tcs e h =
      analyze_all-Tracks config [] at tcs (new_detector rt parse now file config) (omega arith)
        (new_detector-Tracks parse now file config e)
