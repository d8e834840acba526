-- ===== src/Tests/Certs.antt =====
-- internal/proxy/tls.go: two goroutines that miss the certificate of a host at the same time.
use ghost_guard.Prelude.{ℕ, String, none, some, [], ◌≡◌, refl}
use ghost_guard.Prelude.Int.{pos}
use ghost_guard.Dict.{lookup, insert}
use ghost_guard.Proxy.Certs.{
  Crypto, CertManager, Draw, made, new_cert_manager, generate_ca, issue, keep, generate_cert,
}
use ghost_guard.Proxy.Certs.Threads.{
  System, reading, missed, returned, move, generated, Reach, here, next, calls, misses, generates,
  at_rest,
}
use ghost_guard.Proxy.Certs.Cache.{IsIssued, Reach-same_cert}

-- Keys are numbers, and a certificate is its key with the name in it.
abbrev pub crypto : Crypto ℕ String ℕ String String (ℕ × String)
crypto = record {
  generate_key = λ r. some r;
  random_below = λ n r. some r;
  parse_ip = λ host. none;
  create = λ r template parent key ca_key. some template.common_name;
  parse_certificate = λ der. some der;
  raw = λ x. x;
  key_pair = λ der key. some (key, der);
}

abbrev pub draw : ℕ → Draw ℕ
draw n = record { key = n; serial = n; signature = n; now = pos n; later = pos n }

abbrev pub manager : CertManager ℕ String (ℕ × String)
manager = record { ca_cert = "GhostGuard CA"; ca_key = 1; certs = [] }

abbrev waiting : System ℕ String (ℕ × String)
waiting =
    move 1 (missed "h")
      (move 0 (missed "h") (move 1 (reading "h") (move 0 (reading "h") (at_rest manager))))

abbrev answered_both : System ℕ String (ℕ × String)
answered_both = generated crypto 1 "h" (draw 6) (generated crypto 0 "h" (draw 5) waiting)

reach_both : Reach crypto (at_rest manager) answered_both
unfolding lookup
reach_both =
    next
      (next
        (next (next (next (next here (calls 0 "h")) (calls 1 "h")) (misses 0 "h" refl refl))
          (misses 1 "h" refl refl))
        (generates 0 "h" (draw 5) refl))
      (generates 1 "h" (draw 6) refl)

manager-new : new_cert_manager crypto (draw 1) ≡ made manager
unfolding new_cert_manager generate_ca
manager-new = refl

abbrev cert : ℕ × String
cert = (5, "h")

first-returned : answered_both.phase 0 ≡ returned "h" (made cert)
unfolding generate_cert issue keep lookup insert
first-returned = refl

second-returned : answered_both.phase 1 ≡ returned "h" (made cert)
unfolding generate_cert issue keep lookup insert
second-returned = refl

Reach-same_cert_example : (cert ≡ cert) × IsIssued crypto manager.ca_cert manager.ca_key "h" cert
Reach-same_cert_example =
    Reach-same_cert crypto (draw 1) manager answered_both 0 1 "h" cert cert manager-new reach_both
      first-returned second-returned
