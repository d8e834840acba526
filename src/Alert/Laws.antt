-- ===== src/Alert/Laws.antt =====
-- Every sink is tried, whatever the others answer.
use ghost_guard.Prelude.{
  ◌≡◌, refl, ap, Option, none, List, [], ◌∷◌, ◌++◌, arith, is_some, any, ◌||◌,
}
use ghost_guard.Model.{Alert}
use ghost_guard.Alert.{Sink, Outside, Delivery, SendError, send, or_last, alert_from, alert_all}

module _ {F : Type 0} (o : Outside F) (alert : Alert F) where
  -- What each sink delivers on its own, one after the other.
  abbrev pub deliveries : List Sink → List Delivery
  deliveries [] = []
  deliveries (sink ∷ sinks) = (send o sink alert).0 ++ deliveries sinks

  alert_from-deliveries :
      (sinks : List Sink) (last : Option SendError)
      → ((alert_from o sinks alert last).0 ≡ deliveries sinks)
        × (is_some (alert_from o sinks alert last).1
            ≡ (is_some last || any (λ sink. is_some (send o sink alert).1) sinks))
  unfolding alert_from
  alert_from-deliveries [] last = (refl, ground arith)
  alert_from-deliveries (sink ∷ sinks) last =
      let (all, failed) = alert_from-deliveries sinks (or_last (send o sink alert).1 last) in
      (ap (λ l. (send o sink alert).0 ++ l) all, ground arith)

  -- An alert is delivered by all sinks, in their order, as each would deliver it alone, and is an
  -- error exactly when some sink's delivery is one.
  pub alert_all-deliveries :
      (sinks : List Sink)
      → ((alert_all o sinks alert).0 ≡ deliveries sinks)
        × (is_some (alert_all o sinks alert).1 ≡ any (λ sink. is_some (send o sink alert).1) sinks)
  unfolding alert_all
  alert_all-deliveries sinks = alert_from-deliveries sinks none
