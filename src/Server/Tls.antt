-- ===== src/Server/Tls.antt =====
-- The certificates of the server, `src/ngrok/server/tls.go`. The file system, the assets and
-- `crypto/tls` are arguments. Times are seconds; a certificate is known by a number.
pub mod Serving
use ngrok.Prelude.{
  ℕ, zero, suc, ◌+◌, ◌-◌, ◌*◌, Bool, true, false, not, ◌&&◌, ◌||◌, List, [], ◌∷◌, ◌++◌, Option,
  none, some, if◌then◌else◌, ltb, ◌==◌, drop,
}
use ngrok.Prelude.Maps.{Map, get, put}
use ngrok.Prelude.Text.{Text, text, text_dec, same, to_lower, trim_suffix}
use ngrok.Prelude.HostPort.{index_byte}
use ngrok.Server.Vhosts.{DomainTlsConfig}

pub record CertSource : Type 0 where
  pub crt_path : Text
  pub key_path : Text
  pub cert : Option ℕ
  pub crt_mod_time : ℕ
  pub key_mod_time : ℕ
  pub next_check : ℕ
  pub asset_backed : Bool

-- What the source reads from outside: the time, the times of change of files, the contents of files
-- and assets, `X509KeyPair`, and the end of the first certificate of a chain, if it can be parsed.
pub record World : Type 0 where
  pub now : ℕ
  pub mod_time : Text → Option ℕ
  pub read_file : Text → Option Text
  pub asset : Text → Option Text
  pub key_pair : Text → Text → Option ℕ
  pub not_after : ℕ → Option ℕ

unfoldable pub new_cert_source : Text → Text → CertSource
new_cert_source crt_path key_path = record {
  crt_path = crt_path;
  key_path = key_path;
  cert = none;
  crt_mod_time = 0;
  key_mod_time = 0;
  next_check = 0;
  asset_backed = same crt_path [] || same key_path [];
}

abbrev pub default_crt : Text
default_crt = text "assets/server/tls/snakeoil.crt"

abbrev pub default_key : Text
default_key = text "assets/server/tls/snakeoil.key"

unfoldable pub file_or_asset : World → Text → Text → Option Text
file_or_asset w path default_path = if same path [] then w.asset default_path else w.read_file path

-- `statModTimes`
unfoldable pub stat_mod_times : World → CertSource → Option (ℕ × ℕ)
stat_mod_times w s = if s.asset_backed then some (0, 0) else elim (w.mod_time s.crt_path) [
  | none ↦ none
  | some crt_mod ↦ elim (w.mod_time s.key_path) [
    | none ↦ none
    | some key_mod ↦ some (crt_mod, key_mod)
  ]
]

abbrev pub cert_reload_before_expiry : ℕ
cert_reload_before_expiry = 24 * 3600

abbrev pub cert_reload_retry_after : ℕ
cert_reload_retry_after = 60

-- `nextCertificateCheck` of a certificate.
unfoldable pub next_certificate_check : World → ℕ → ℕ
next_certificate_check w cert = elim (w.not_after cert) [
  | none ↦ w.now + cert_reload_retry_after
  | some end ↦
      if ltb end (w.now + cert_reload_before_expiry)
      then w.now + cert_reload_retry_after
      else end - cert_reload_before_expiry
]

-- Whether the certificate at hand is that of the files.
unfoldable pub unchanged : ℕ × ℕ → CertSource → Bool
unchanged (crt_mod, key_mod) s =
    s.asset_backed || ((crt_mod == s.crt_mod_time) && (key_mod == s.key_mod_time))

-- The end of `Certificate`: the pair is read and parsed. `none` is any of the errors.
unfoldable pub load_pair : World → CertSource → Option ℕ
load_pair w s = elim (file_or_asset w s.crt_path default_crt) [
  | none ↦ none
  | some crt ↦ elim (file_or_asset w s.key_path default_key) [
    | none ↦ none
    | some key ↦ w.key_pair crt key
  ]
]

-- The end of `Certificate`: the source takes the pair that was loaded.
unfoldable pub store_pair : World → ℕ × ℕ → CertSource → Option ℕ × CertSource
store_pair w times s = elim (load_pair w s) [
  | none ↦ (s.cert, s)
  | some fresh ↦ (
    some fresh,
    record s {
      cert = some fresh;
      crt_mod_time = times.0;
      key_mod_time = times.1;
      next_check = next_certificate_check w fresh;
    },
  )
]

-- The part of `Certificate` under the lock.
unfoldable pub reload_locked : World → CertSource → Option ℕ × CertSource
reload_locked w s = elim (stat_mod_times w s) [
  | none ↦ (s.cert, s)
  | some times ↦ elim s.cert [
    | none ↦ store_pair w times s
    | some cert ↦
        if unchanged times s
        then (some cert, record s { next_check = next_certificate_check w cert })
        else store_pair w times s
  ]
]

-- `Certificate` after the check of `nextCheck`. The times are read once before the lock and once
-- under it: the two worlds are those of the two readings.
unfoldable pub reload : World → World → CertSource → Option ℕ × CertSource
reload w w' s = elim (stat_mod_times w s) [
  | none ↦ (s.cert, s)
  | some times ↦ elim s.cert [
    | none ↦ reload_locked w' s
    | some cert ↦ if unchanged times s then (some cert, s) else reload_locked w' s
  ]
]

-- `Certificate`
unfoldable pub certificate : World → World → CertSource → Option ℕ × CertSource
certificate w w' s = elim s.cert [
  | some cert ↦ if ltb w.now s.next_check then (some cert, s) else reload w w' s
  | none ↦ reload w w' s
]

-- `certificateForName`, with sources known by numbers.
unfoldable pub certificate_for_name : ℕ → Map Text ℕ → Text → ℕ
certificate_for_name default_source by_name name =
    let name' = to_lower (trim_suffix name (text ".")) in
    elim (get text_dec name' by_name) [
      | some source ↦ source
      | none ↦ elim (index_byte name' b'.') [
        | none ↦ default_source
        | some i ↦
            if i == 0
            then default_source
            else elim (get text_dec (text "*." ++ drop (suc i) name') by_name) [
              | some source ↦ source
              | none ↦ default_source
            ]
      ]
    ]

-- The map that `LoadTLSConfig` builds from the domains; the sources are numbered from `n` on.
unfoldable pub sources_by_name : ℕ → List DomainTlsConfig → Map Text ℕ → Map Text ℕ
sources_by_name n [] m = m
sources_by_name n (d ∷ ds) m =
    let name = to_lower d.domain in
    sources_by_name (suc n) ds (put text_dec (text "*." ++ name) n (put text_dec name n m))
