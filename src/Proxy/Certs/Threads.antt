-- ===== src/Proxy/Certs/Threads.antt =====
-- internal/proxy/tls.go: GetCert called by any number of goroutines. The lookup under the reader's lock
-- and generateCert under the writer's are a step each, and other goroutines may step between them.
use ghost_guard.Prelude.{ℕ, String, none, some, ◌≡◌, if◌then◌else◌, eqb}
use ghost_guard.Dict.{lookup}
use ghost_guard.Proxy.Certs.{Crypto, CertManager, Draw, Made, made, generate_cert}

-- Where a goroutine stands in GetCert: outside of it; before its lookup; between the lookup, which has
-- found nothing, and generateCert; or behind its return, with the host that it asked for.
pub data Phase (C : Type 0) : Type 0 where
  idle : Phase C
  reading : String → Phase C
  missed : String → Phase C
  returned : String → Made C → Phase C

pub record System (K X C : Type 0) : Type 0 where
  pub manager : CertManager K X C
  pub phase : ℕ → Phase C

abbrev pub update : {C : Type 0} → (ℕ → Phase C) → ℕ → Phase C → ℕ → Phase C
update phase i p j = if eqb i j then p else phase j

abbrev pub move : {K X C : Type 0} → ℕ → Phase C → System K X C → System K X C
move i p s = record s { phase = update s.phase i p }

module _ {R Ip K D X C : Type 0} (crypto : Crypto R Ip K D X C) where
  -- generateCert by goroutine `i`
  abbrev pub generated : ℕ → String → Draw R → System K X C → System K X C
  generated i host draw s =
      let (manager, result) = generate_cert crypto host draw s.manager in
      record { manager = manager; phase = update s.phase i (returned host result) }

  pub data Step (s : System K X C) : System K X C → Type 0 where
    calls : (i : ℕ) (host : String) → Step s (move i (reading host) s)
    finds :
        (i : ℕ) (host : String) (cert : C)
        → s.phase i ≡ reading host
        → lookup host s.manager.certs ≡ some cert
        → Step s (move i (returned host (made cert)) s)
    misses :
        (i : ℕ) (host : String)
        → s.phase i ≡ reading host
        → lookup host s.manager.certs ≡ none
        → Step s (move i (missed host) s)
    generates :
        (i : ℕ) (host : String) (draw : Draw R)
        → s.phase i ≡ missed host
        → Step s (generated i host draw s)

  pub data Reach (s : System K X C) : System K X C → Type 0 where
    here : Reach s s
    next : {t u : System K X C} → Reach s t → Step t u → Reach s u

-- Every goroutine is outside of GetCert.
abbrev pub at_rest : {K X C : Type 0} → CertManager K X C → System K X C
at_rest manager = record { manager = manager; phase = λ i. idle }
