-- ===== src/Server/Tls/Serving.antt =====
-- The certificate that is served, `src/ngrok/server/tls.go`.
use ngrok.Prelude.{ℕ, Option, some, ◌≡◌, refl, ltb, Bool-cases, Option-cases, inl, inr}
use ngrok.Server.Tls.{
  CertSource, World, certificate, reload, reload_locked, store_pair, stat_mod_times, unchanged,
  load_pair,
}

-- A certificate is given and kept.
abbrev pub Keeps : Option ℕ × CertSource → Type 0
Keeps r = (d : ℕ) × (r.0 ≡ some d) × (r.1.cert ≡ some d)

module _ (s : CertSource) (c : ℕ) (h : s.cert ≡ some c) where
  store_pair-Keeps : (w : World) (times : ℕ × ℕ) → Keeps (store_pair w times s)
  unfolding store_pair
  store_pair-Keeps w times = elim (Option-cases (load_pair w s)) [
    | inl failed ↦ rw (failed, store_pair) (c, h, h)
    | inr (fresh, loaded) ↦ rw (loaded, store_pair) (fresh, refl, refl)
  ]

  reload_locked-Keeps : (w : World) → Keeps (reload_locked w s)
  unfolding reload_locked
  reload_locked-Keeps w = elim (Option-cases (stat_mod_times w s)) [
    | inl failed ↦ rw (failed, reload_locked) (c, h, h)
    | inr (times, read) ↦ elim (Bool-cases (unchanged times s)) [
      | inl same ↦ simp (read, reload_locked, h, same) (c, refl, refl)
      | inr other ↦ simp (read, reload_locked, h, other) (store_pair-Keeps w times)
    ]
  ]

  reload-Keeps : (w w' : World) → Keeps (reload w w' s)
  unfolding reload
  reload-Keeps w w' = elim (Option-cases (stat_mod_times w s)) [
    | inl failed ↦ rw (failed, reload) (c, h, h)
    | inr (times, read) ↦ elim (Bool-cases (unchanged times s)) [
      | inl same ↦ simp (read, reload, h, same) (c, refl, refl)
      | inr other ↦ simp (read, reload, h, other) (reload_locked-Keeps w')
    ]
  ]

-- Once a source has a certificate it always gives one and keeps one: whatever becomes of its files,
-- and whatever fails in reading them.
pub certificate-Keeps :
    (w w' : World) (s : CertSource) (c : ℕ) → s.cert ≡ some c → Keeps (certificate w w' s)
unfolding certificate
certificate-Keeps w w' s c h = elim (Bool-cases (ltb w.now s.next_check)) [
  | inl soon ↦ simp (certificate, h, soon) (c, refl, refl)
  | inr later ↦ simp (certificate, h, later) (reload-Keeps s c h w w')
]
