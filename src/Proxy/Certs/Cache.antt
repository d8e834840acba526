-- ===== src/Proxy/Certs/Cache.antt =====
-- internal/proxy/tls.go: a host has one certificate, however the calls of GetCert interleave.
use ghost_guard.Prelude.{
  ℕ, String, none, some, [], ◌⊎◌, ◌≡◌, refl, sym, ◌∙◌, ap, arith, eqb, ◌==◌, eq_iff, eq_refl,
  Bool-cases, Option-cases, inl, inr,
}
use ghost_guard.Dict.{lookup}
use ghost_guard.Dict.Laws.{lookup-insert}
use ghost_guard.Proxy.Certs.{
  Crypto, CertManager, Draw, Made, made, failed, CertError, new_cert_manager, generate_ca, issue,
  keep, generate_cert,
}
use ghost_guard.Proxy.Certs.Threads.{
  returned, System, Step, calls, finds, misses, generates, Reach, here, next, at_rest,
}

Made-cases :
    {A : Type 0} (m : Made A) → ((a : A) × (m ≡ made a)) ⊎ ((e : CertError) × (m ≡ failed e))
Made-cases (made a) = inl (a, refl)
Made-cases (failed e) = inr (e, refl)

module _ {R Ip K D X C : Type 0} (crypto : Crypto R Ip K D X C) where
  -- The certificate was issued for the host by the authority of the manager.
  abbrev pub IsIssued : X → K → String → C → Type 0
  IsIssued ca_cert ca_key host cert =
      (draw : Draw R) × (issue crypto ca_cert ca_key host draw ≡ made cert)

  lookup-keep :
      (host asked : String) (result : Made C) (cm : CertManager K X C) (cert : C)
      → lookup host cm.certs ≡ none
      → lookup asked cm.certs ≡ some cert
      → lookup asked (keep crypto host result cm).certs ≡ some cert
  unfolding keep
  lookup-keep host asked (made c) cm cert new h =
      ground (arith, eq_iff host asked, lookup-insert host asked c cm.certs)
  lookup-keep host asked (failed e) cm cert new h = h

  lookup-keep_made :
      (host : String) (result : Made C) (cm : CertManager K X C) (cert : C)
      → result ≡ made cert
      → lookup host (keep crypto host result cm).certs ≡ some cert
  unfolding keep
  lookup-keep_made host (made c) cm cert h =
      ground (arith, eq_refl host, lookup-insert host host c cm.certs)
  lookup-keep_made host (failed e) cm cert h = cc

  -- A certificate that is kept stays.
  lookup-generate_cert :
      (host asked : String) (draw : Draw R) (cm : CertManager K X C) (cert : C)
      → lookup asked cm.certs ≡ some cert
      → lookup asked (generate_cert crypto host draw cm).0.certs ≡ some cert
  unfolding generate_cert
  lookup-generate_cert host asked draw cm cert h = elim (Option-cases (lookup host cm.certs)) [
    | inl new ↦ rw (new, generate_cert) (lookup-keep host asked _ cm cert new h)
    | inr (c, old) ↦ rw (old, generate_cert) h
  ]

  -- What is returned is kept.
  generate_cert-kept :
      (host : String) (draw : Draw R) (cm : CertManager K X C) (cert : C)
      → (generate_cert crypto host draw cm).1 ≡ made cert
      → lookup host (generate_cert crypto host draw cm).0.certs ≡ some cert
  unfolding generate_cert
  generate_cert-kept host draw cm cert h = elim (Option-cases (lookup host cm.certs)) [
    | inl new ↦
        rw (new, generate_cert) (lookup-keep_made host _ cm cert (rw (new, generate_cert) at h))
    | inr (c, old) ↦
        let same : made c ≡ made cert = rw (old, generate_cert) at h in
        rw (old, generate_cert) (old ∙ ground arith)
  ]

  -- Every certificate that is kept was issued for its host.
  AllIssued : CertManager K X C → Type 0
  AllIssued cm =
      (host : String) (cert : C)
      → lookup host cm.certs ≡ some cert
      → IsIssued cm.ca_cert cm.ca_key host cert

  keep-AllIssued :
      (host : String) (result : Made C) (draw : Draw R) (cm : CertManager K X C)
      → issue crypto cm.ca_cert cm.ca_key host draw ≡ result
      → AllIssued cm
      → AllIssued (keep crypto host result cm)
  unfolding keep AllIssued
  keep-AllIssued host (made c) draw cm e all asked cert found = elim (Bool-cases (host == asked)) [
    | inl same ↦
        let here : host ≡ asked = (eq_iff host asked).0 same in
        let stored : some c ≡ some cert =
          sym (lookup-insert host asked c cm.certs ∙ rw same refl) ∙ found in
        (draw, ap (λ x. issue crypto cm.ca_cert cm.ca_key x draw) (sym here) ∙ e ∙ ground arith)
    | inr other ↦ all asked cert (sym (lookup-insert host asked c cm.certs ∙ rw other refl) ∙ found)
  ]
  keep-AllIssued host (failed e) draw cm eq all asked cert found = all asked cert found

  generate_cert-AllIssued :
      (host : String) (draw : Draw R) (cm : CertManager K X C)
      → AllIssued cm
      → AllIssued (generate_cert crypto host draw cm).0
  unfolding generate_cert
  generate_cert-AllIssued host draw cm all = elim (Option-cases (lookup host cm.certs)) [
    | inl new ↦ rw (new, generate_cert) (keep-AllIssued host _ draw cm refl all)
    | inr (c, old) ↦ rw (old, generate_cert) all
  ]

  record IsSound (s : System K X C) : Type 0 where
    kept :
        (i : ℕ) (host : String) (cert : C)
        → s.phase i ≡ returned host (made cert)
        → lookup host s.manager.certs ≡ some cert
    issued : AllIssued s.manager

  Step-IsSound : {s t : System K X C} → Step crypto s t → IsSound s → IsSound t
  Step-IsSound (calls i host) v = record {
    kept = λ j h c e. ground (arith, v.kept j h c);
    issued = v.issued;
  }
  Step-IsSound (finds i host cert at found) v = record {
    kept = λ j h c e. ground (arith, v.kept j h c);
    issued = v.issued;
  }
  Step-IsSound (misses i host at absent) v = record {
    kept = λ j h c e. ground (arith, v.kept j h c);
    issued = v.issued;
  }
  Step-IsSound {s} (generates i host draw at) v = record {
    kept = λ j h c e. elim (Bool-cases (eqb i j)) [
      | inl mine ↦
          let answer : returned host (generate_cert crypto host draw s.manager).1
              ≡ returned h (made c) =
            rw mine at e in
          let same : host ≡ h = ground arith in
          ap (λ x. lookup x (generate_cert crypto host draw s.manager).0.certs) (sym same)
          ∙ generate_cert-kept host draw s.manager c (ground arith)
      | inr other ↦ lookup-generate_cert host h draw s.manager c (v.kept j h c (rw other at e))
    ];
    issued = generate_cert-AllIssued host draw s.manager v.issued;
  }

  Reach-IsSound : {s t : System K X C} → Reach crypto s t → IsSound s → IsSound t
  Reach-IsSound here v = v
  Reach-IsSound (next r st) v = Step-IsSound st (Reach-IsSound r v)

  SameCa : System K X C → System K X C → Type 0
  SameCa s t = (t.manager.ca_cert ≡ s.manager.ca_cert) × (t.manager.ca_key ≡ s.manager.ca_key)

  keep-ca :
      (host : String) (result : Made C) (cm : CertManager K X C)
      → ((keep crypto host result cm).ca_cert ≡ cm.ca_cert)
        × ((keep crypto host result cm).ca_key ≡ cm.ca_key)
  unfolding keep
  keep-ca host (made c) cm = (refl, refl)
  keep-ca host (failed e) cm = (refl, refl)

  generate_cert-ca :
      (host : String) (draw : Draw R) (cm : CertManager K X C)
      → ((generate_cert crypto host draw cm).0.ca_cert ≡ cm.ca_cert)
        × ((generate_cert crypto host draw cm).0.ca_key ≡ cm.ca_key)
  unfolding generate_cert
  generate_cert-ca host draw cm = elim (Option-cases (lookup host cm.certs)) [
    | inl new ↦ rw (new, generate_cert) (keep-ca host _ cm)
    | inr (c, old) ↦ rw (old, generate_cert) (refl, refl)
  ]

  Step-SameCa : {s t : System K X C} → Step crypto s t → SameCa s t
  unfolding SameCa
  Step-SameCa (calls i host) = (refl, refl)
  Step-SameCa (finds i host cert at found) = (refl, refl)
  Step-SameCa (misses i host at absent) = (refl, refl)
  Step-SameCa {s} (generates i host draw at) = generate_cert-ca host draw s.manager

  Reach-SameCa : {s t : System K X C} → Reach crypto s t → SameCa s t
  unfolding SameCa
  Reach-SameCa here = (refl, refl)
  Reach-SameCa (next r st) =
      let (cert, key) = Reach-SameCa r in
      let (cert', key') = Step-SameCa st in (cert' ∙ cert, key' ∙ key)

  new_cert_manager-IsSound :
      (draw : Draw R) (cm : CertManager K X C)
      → new_cert_manager crypto draw ≡ made cm
      → IsSound (at_rest cm)
  unfolding new_cert_manager AllIssued lookup
  new_cert_manager-IsSound draw cm e = elim (Made-cases (generate_ca crypto draw)) [
    | inl (ca, ok) ↦
        let empty : cm.certs ≡ [] = ground arith in
        record { kept = λ i host cert at. cc; issued = λ host cert found. cc (rw empty at found) }
    | inr (err, failure) ↦ absurd (ground arith)
  ]

  -- Goroutines call GetCert on a new manager, their lookups and their issues in any order: two that
  -- are given a certificate for the same host are given the same one, and it was issued for the host by
  -- the manager's authority.
  pub Reach-same_cert :
      (draw : Draw R) (cm : CertManager K X C) (s : System K X C) (i j : ℕ) (host : String)
      (c d : C)
      → new_cert_manager crypto draw ≡ made cm
      → Reach crypto (at_rest cm) s
      → s.phase i ≡ returned host (made c)
      → s.phase j ≡ returned host (made d)
      → (c ≡ d) × IsIssued cm.ca_cert cm.ca_key host c
  unfolding AllIssued SameCa
  Reach-same_cert draw cm s i j host c d e r hi hj =
      let v = Reach-IsSound r (new_cert_manager-IsSound draw cm e) in
      let (ca, key) = Reach-SameCa r in
      let first : lookup host s.manager.certs ≡ some c = v.kept i host c hi in
      let second : lookup host s.manager.certs ≡ some d = v.kept j host d hj in
      let (draw', made_by) = v.issued host c first in
      (ground arith, (draw', rw (ca, key) at made_by))
