-- ===== src/Proxy/Certs.antt =====
-- internal/proxy/tls.go: the certificate authority that the proxy makes for itself, the certificates
-- that it issues and keeps, and dialTLS. Keys, signatures and encodings are those of Go's crypto
-- packages: the record `Crypto` takes their place.
pub mod Threads
pub mod Cache
use ghost_guard.Prelude.{ℕ, ◌*◌, ◌^◌, String, Bool, true, false, Option, none, some, List, [], ◌∷◌}
use ghost_guard.Prelude.Int.{ℤ, pos, ◌+ℤ◌}
use ghost_guard.Dict.{Dict, lookup, insert}

-- The errors of generateCA and generateCert, and of dialTLS.
pub data CertError : Type 0 where
  generating_key generating_serial creating parsing making_pair : CertError
  dialing : String → CertError

pub data Made (A : Type 0) : Type 0 where
  made : A → Made A
  failed : CertError → Made A

infixl 5 ◌>>=◌
abbrev pub ◌>>=◌ : {A B : Type 0} → Made A → (A → Made B) → Made B
made a >>= f = f a
failed e >>= f = failed e

-- `if err != nil { return nil, fmt.Errorf(…) }`
abbrev pub or_fail : {A : Type 0} → Option A → CertError → Made A
or_fail none e = failed e
or_fail (some a) e = made a

pub data KeyUsage : Type 0 where
  cert_sign crl_sign digital_signature key_encipherment : KeyUsage

pub data ExtKeyUsage : Type 0 where
  server_auth : ExtKeyUsage

-- x509.Certificate, as far as the two templates fill it in; `Ip` is net.IP.
pub record Template (Ip : Type 0) : Type 0 where
  pub serial_number : ℕ
  pub organization : List String
  pub common_name : String
  pub not_before : ℤ
  pub not_after : ℤ
  pub key_usage : List KeyUsage
  pub ext_key_usage : List ExtKeyUsage
  pub basic_constraints_valid : Bool
  pub is_ca : Bool
  pub max_path_len : ℕ
  pub ip_addresses : List Ip
  pub dns_names : List String

-- What one issue of a certificate meets: the random bits of each call, and the two readings of the
-- clock. `R` is the type of the random bits.
pub record Draw (R : Type 0) : Type 0 where
  pub key : R
  pub serial : R
  pub signature : R
  pub now : ℤ
  pub later : ℤ

-- `K` is *ecdsa.PrivateKey, `D` the DER bytes, `X` a parsed *x509.Certificate and `C` a
-- tls.Certificate. `create` is given no parent where the template is its own.
pub record Crypto (R Ip K D X C : Type 0) : Type 0 where
  pub generate_key : R → Option K
  pub random_below : ℕ → R → Option ℕ
  pub parse_ip : String → Option Ip
  pub create : R → Template Ip → Option X → K → K → Option D
  pub parse_certificate : D → Option X
  pub raw : X → D
  pub key_pair : D → K → Option C

pub record CertManager (K X C : Type 0) : Type 0 where
  pub ca_cert : X
  pub ca_key : K
  pub certs : Dict C

-- 24*time.Hour
abbrev pub day : ℕ
day = 86400000000000

module _ {R Ip K D X C : Type 0} (crypto : Crypto R Ip K D X C) where
  open crypto use {generate_key, random_below, parse_ip, create, parse_certificate, raw, key_pair}

  unfoldable pub ca_template : ℕ → Draw R → Template Ip
  ca_template serial draw = record {
    serial_number = serial;
    organization = "GhostGuard" ∷ [];
    common_name = "GhostGuard CA";
    not_before = draw.now;
    not_after = draw.later +ℤ pos (10 * 365 * day);
    key_usage = cert_sign ∷ crl_sign ∷ [];
    ext_key_usage = [];
    basic_constraints_valid = true;
    is_ca = true;
    max_path_len = 1;
    ip_addresses = [];
    dns_names = [];
  }

  -- generateCA: the certificate and its key
  unfoldable pub generate_ca : Draw R → Made (X × K)
  unfolding ca_template
  generate_ca draw = do
    key ← or_fail (generate_key draw.key) generating_key
    serial ← or_fail (random_below (2 ^ 128) draw.serial) generating_serial
    der ← or_fail (create draw.signature (ca_template serial draw) none key key) creating
    cert ← or_fail (parse_certificate der) parsing
    made (cert, key)

  -- NewCertManager
  unfoldable pub new_cert_manager : Draw R → Made (CertManager K X C)
  unfolding generate_ca
  new_cert_manager draw = do
    ca ← generate_ca draw
    made (record { ca_cert = ca.0; ca_key = ca.1; certs = [] })

  -- A host that is an address is named as one, and any other as a DNS name.
  unfoldable pub host_template : String → ℕ → Draw R → Template Ip
  host_template host serial draw = record {
    serial_number = serial;
    organization = "GhostGuard" ∷ [];
    common_name = host;
    not_before = draw.now;
    not_after = draw.later +ℤ pos (365 * day);
    key_usage = digital_signature ∷ key_encipherment ∷ [];
    ext_key_usage = server_auth ∷ [];
    basic_constraints_valid = false;
    is_ca = false;
    max_path_len = 0;
    ip_addresses = elim (parse_ip host) [ none ↦ [] | some ip ↦ ip ∷ [] ];
    dns_names = elim (parse_ip host) [ none ↦ host ∷ [] | some ip ↦ [] ];
  }

  -- generateCert, from `key, err := …` to the certificate that it stores
  unfoldable pub issue : X → K → String → Draw R → Made C
  unfolding host_template
  issue ca_cert ca_key host draw = do
    key ← or_fail (generate_key draw.key) generating_key
    serial ← or_fail (random_below (2 ^ 128) draw.serial) generating_serial
    der ←
        or_fail (create draw.signature (host_template host serial draw) (some ca_cert) key ca_key)
          creating
    or_fail (key_pair der key) making_pair

  -- `cm.certs[host] = &cert`, if there is one
  unfoldable pub keep : String → Made C → CertManager K X C → CertManager K X C
  keep host (made cert) cm = record cm { certs = insert host cert cm.certs }
  keep host (failed e) cm = cm

  -- generateCert, which holds the lock from its beginning to its end
  unfoldable pub generate_cert : String → Draw R → CertManager K X C → CertManager K X C × Made C
  unfolding issue keep
  generate_cert host draw cm = elim (lookup host cm.certs) [
    | some cert ↦ (cm, made cert)
    | none ↦ let issued = issue cm.ca_cert cm.ca_key host draw in (keep host issued cm, issued)
  ]

  -- GetCert, called by one thread alone
  unfoldable pub get_cert : String → Draw R → CertManager K X C → CertManager K X C × Made C
  unfolding generate_cert
  get_cert host draw cm = elim (lookup host cm.certs) [
    | some cert ↦ (cm, made cert)
    | none ↦ generate_cert host draw cm
  ]

  -- ExportCA: the bytes of the PEM block that it writes
  abbrev pub export_ca : CertManager K X C → D
  export_ca cm = raw cm.ca_cert

  -- dialTLS: `split` is net.SplitHostPort's host, and `dial` is tls.Dial with the certificate.
  unfoldable pub dial_tls :
      {Conn : Type 0}
      → (String → Option String)
      → (String → C → Made Conn)
      → Draw R
      → String
      → CertManager K X C
      → CertManager K X C × Made Conn
  unfolding get_cert
  dial_tls split dial draw addr cm =
      let host : String = elim (split addr) [ none ↦ addr | some host ↦ host ] in
      let (cm', cert) = get_cert host draw cm in (cm', cert >>= λ c. dial addr c)
