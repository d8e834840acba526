-- ===== src/Dashboard/Totals.antt =====
-- The counters of a dashboard against all events that it has recorded.
use mathlib.Core.List.{append_assoc, append-nil}
use ghost_guard.Prelude.{ℕ, suc, ◌+◌, ◌≡◌, refl, List, [], ◌∷◌, ◌++◌, arith, length}
use ghost_guard.Prelude.Int.{ℤ, wrap64}
use ghost_guard.Dict.{lookup, get_or}
use native.Mathlib.Nat.{add-zero, zero-add, add_assoc}
use ghost_guard.Model.{InterceptionEvent, ToolCall, PolicyDecision}
use ghost_guard.Dashboard.{Dashboard, new_dashboard, record_event}
use ghost_guard.Dashboard.Counters.{Shows, record_metrics-Shows}

module _ {F : Type 0} where
  abbrev pub all_tool_calls : List (InterceptionEvent F) → List (ToolCall F)
  all_tool_calls [] = []
  all_tool_calls (e ∷ es) = e.tool_calls ++ all_tool_calls es

  abbrev pub all_decisions : List (InterceptionEvent F) → List PolicyDecision
  all_decisions [] = []
  all_decisions (e ∷ es) = e.decisions ++ all_decisions es

  abbrev pub anomaly_count : List (InterceptionEvent F) → ℕ
  anomaly_count [] = 0
  anomaly_count (e ∷ es) = length e.anomalies + anomaly_count es

  -- The events of a list, recorded one after the other; `at` gives the clock.
  unfoldable pub record_all : (ℕ → ℤ) → List (InterceptionEvent F) → Dashboard F → Dashboard F
  record_all at [] d = d
  record_all at (e ∷ es) d = record_all (λ i. at (suc i)) es (record_event (at 0) e d)

  record_all-Shows :
      (at : ℕ → ℤ) (es : List (InterceptionEvent F)) (n : ℕ) (tcs : List (ToolCall F)) (k : ℕ)
      (ds : List PolicyDecision) (d : Dashboard F)
      → Shows n tcs k ds d.metrics
      → Shows
          (n + length es)
          (tcs ++ all_tool_calls es)
          (k + anomaly_count es)
          (ds ++ all_decisions es)
          (record_all at es d).metrics
  unfolding record_all record_event
  record_all-Shows at [] n tcs k ds d s =
      rw (append-nil tcs, append-nil ds, add-zero n, add-zero k) s
  record_all-Shows at (e ∷ es) n tcs k ds d s =
      rw
        (
          ← append_assoc tcs e.tool_calls (all_tool_calls es),
          ← append_assoc ds e.decisions (all_decisions es),
          ← add_assoc k (length e.anomalies) (anomaly_count es),
          shift n (length es),
        )
        (record_all-Shows (λ i. at (suc i)) es (n + 1) (tcs ++ e.tool_calls)
          (k + length e.anomalies) (ds ++ e.decisions) (record_event (at 0) e d)
          (record_metrics-Shows (at 0) e n tcs k ds d.metrics s))
    where
      shift : (a b : ℕ) → a + suc b ≡ a + 1 + b
      shift a b = omega arith

-- After a new dashboard has recorded some events, its counters show, each modulo 2 ^ 64 as an int64,
-- how many events there were, how many tool calls and anomalies they had, and how many of their
-- decisions denied and how many allowed; its two maps show for each tool the number of its calls,
-- and for each action the number of the decisions for it.
pub record_all-new_dashboard-Shows :
    {F : Type 0} (at : ℕ → ℤ) (start : ℤ) (es : List (InterceptionEvent F))
    → Shows
        (length es)
        (all_tool_calls es)
        (anomaly_count es)
        (all_decisions es)
        (record_all at es (new_dashboard start)).metrics
unfolding new_dashboard get_or lookup wrap64
record_all-new_dashboard-Shows at start es =
    rw (zero-add, zero-add) at
      (record_all-Shows at es 0 [] 0 [] (new_dashboard start) (record {
        requests = refl;
        tool_calls = refl;
        anomalies = refl;
        denied = refl;
        allowed = refl;
        tools = λ name. refl;
        decisions = λ a. refl;
      }))
