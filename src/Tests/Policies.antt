-- ===== src/Tests/Policies.antt =====
-- Instances of the theorems on names, virtual hosts and connections.
use ngrok.Prelude.{
  ◌≤◌, true, false, List, [], ◌∷◌, ◌++◌, ◌≡◌, ◌↔◌, ◌⊎◌, refl, none, some, arith, In, All,
}
use ngrok.Prelude.Maps.{get}
use ngrok.Prelude.Text.{Text, text, text_dec, split, to_lower}
use ngrok.Msg.{Auth}
use ngrok.Cache.Lru.{new_lru_cache}
use ngrok.Server.Names.{
  all_labels_valid, valid_hostname_label, starts_with_dash, ends_in_dash, all_label_chars,
  valid_hostname, hostname_allowed, strip_host_port,
}
use ngrok.Server.Names.Labels.{valid_hostname_iff, IsHostname, valid_hostname-NameChar, NameChar}
use ngrok.Server.Names.Allowed.{hostname_allowed_iff, Below}
use ngrok.Server.Vhosts.{
  public_vhosts, normal_vhost, default_port_suffix, vhost_items, DomainTlsConfig,
}
use ngrok.Server.Vhosts.Collects.{Collects}
use ngrok.Server.Vhosts.Distinct.{public_vhosts-Collects}
use ngrok.Server.Registry.{TunnelRegistry, get_tunnel}
use ngrok.Server.Control.{new_control, started, greeting}
use ngrok.Server.Control.Admission.{IsWelcome, Refuses, new_control_lem}
use ngrok.Server.Controls.{
  Ctl, ControlRegistry, get_control, add_control, reads, deletes, adds, run_steps, start_race,
}
use ngrok.Server.Controls.Replacing.{IsConsistent, Leaves, run_steps-add_control}
use ngrok.Server.Proxies.{Use, registers, takes, expires, use_all, new_history, History}
use ngrok.Server.Proxies.Conserved.{IsConserved, use_all-IsConserved}
use ngrok.Server.Slots.{arrives, ends, Serving, start, serve_all, serve_all-bounded}
use ngrok.Server.Http.{Request, tunnelled, http_handler, http_handler_iff}
use ngrok.Server.Tls.{CertSource, World, certificate}
use ngrok.Server.Tls.Serving.{Keeps, certificate-Keeps}

valid_hostname_iff_example : (valid_hostname (text "a-b.io") ≡ true) ↔ IsHostname (text "a-b.io")
valid_hostname_iff_example = valid_hostname_iff (text "a-b.io")

valid_hostname-NameChar_example : All NameChar (text "a-b.io")
unfolding valid_hostname all_labels_valid split valid_hostname_label starts_with_dash ends_in_dash
    all_label_chars
valid_hostname-NameChar_example = valid_hostname-NameChar (text "a-b.io") refl

hostname_allowed_iff_example : (hostname_allowed (text "x.a.io") (text "a.io:8080" ∷ []) ≡ true) ↔ (
    (vhost : Text) × In vhost (text "a.io:8080" ∷ [])
    × Below (text "x.a.io") (strip_host_port vhost))
hostname_allowed_iff_example = hostname_allowed_iff (text "x.a.io") (text "a.io:8080" ∷ [])

public_vhosts-Collects_example :
    Collects
      (normal_vhost (default_port_suffix (text "http")))
      (vhost_items [] (text "a.io" ∷ text "b.io" ∷ []) 80)
      []
      (public_vhosts [] (text "a.io" ∷ text "b.io" ∷ []) (text "http") 80)
public_vhosts-Collects_example =
    public_vhosts-Collects [] (text "a.io" ∷ text "b.io" ∷ []) (text "http") 80

abbrev a_cert : DomainTlsConfig
a_cert = record { domain = text "B.io"; crt_path = text "b.crt"; key_path = text "b.key" }

abbrev old_ctl : Ctl
old_ctl = record {
  id = text "c1";
  shutdown = record { in_progress = false; begun = false; completed = false };
}

abbrev one_control : ControlRegistry
one_control = record { controls = (text "c1", 1) ∷ []; store = λ a. some old_ctl }

one_control-IsConsistent : IsConsistent one_control
unfolding get_control get text_dec
one_control-IsConsistent = record {
  own = λ k a h. (old_ctl, refl, ground (arith, h));
  named = refl;
}

known_control : get_control (text "c1") one_control ≡ some 1
unfolding get_control get text_dec
known_control = refl

run_steps-add_control_example :
    Leaves
      (text "c1")
      (some 2)
      one_control
      (run_steps 1 (adds (text "c1") 2 ∷ reads ∷ deletes ∷ []) (start_race one_control))
    × Leaves
        (text "c1")
        (some 2)
        one_control
        (run_steps 1 (reads ∷ deletes ∷ adds (text "c1") 2 ∷ []) (start_race one_control))
    × Leaves
        (text "c1")
        none
        one_control
        (run_steps 1 (reads ∷ adds (text "c1") 2 ∷ deletes ∷ []) (start_race one_control))
run_steps-add_control_example =
    run_steps-add_control (text "c1") 2 1 one_control one_control-IsConsistent (λ e. absurd cc)
      known_control

abbrev some_uses : List Use
some_uses = registers 3 ∷ registers 4 ∷ takes expires ∷ []

use_all-IsConserved_example :
    (h : History) × (use_all some_uses new_history ≡ some h) × IsConserved h
use_all-IsConserved_example =
    use_all-IsConserved some_uses (λ e. absurd cc, (λ e. absurd cc, (λ e. absurd cc, tt)))

serve_all-bounded_example :
    (s : Serving) × (serve_all (arrives ∷ arrives ∷ ends ∷ []) (start 1) ≡ some s)
    × (s.slots ≡ some (record { used = s.running; capacity = 1 }))
    × (s.running ≤ 1)
serve_all-bounded_example = serve_all-bounded 1 (arrives ∷ arrives ∷ ends ∷ [])

abbrev one_tunnel : TunnelRegistry
one_tunnel = record { tunnels = (text "http://me.a.io", 7) ∷ []; affinity = new_lru_cache 1000 }

abbrev visit : Request
visit = record { host = text "Me.a.io"; authorization = text "Basic x" }

http_handler_iff_example :
    (http_handler (λ t. text "Basic x") one_tunnel (text "http") (some visit) ≡ tunnelled 7) ↔ (
      (get_tunnel (text "http" ++ (text "://" ++ to_lower visit.host)) one_tunnel ≡ some 7)
      × ((text "Basic x" ≡ []) ⊎ (visit.authorization ≡ text "Basic x")))
http_handler_iff_example = http_handler_iff (λ t. text "Basic x") one_tunnel (text "http") visit 7

abbrev a_source : CertSource
a_source = record {
  crt_path = text "a.crt";
  key_path = text "a.key";
  cert = some 5;
  crt_mod_time = 1;
  key_mod_time = 1;
  next_check = 0;
  asset_backed = false;
}

abbrev broken : World
broken = record {
  now = 10;
  mod_time = λ p. none;
  read_file = λ p. none;
  asset = λ p. none;
  key_pair = λ c k. none;
  not_after = λ c. none;
}

certificate-Keeps_example : Keeps (certificate broken broken a_source)
certificate-Keeps_example = certificate-Keeps broken broken a_source 5 refl

abbrev login : Auth
login = record {
  version = text "2";
  mm_version = text "1.7";
  user = text "secret";
  password = [];
  os = text "linux";
  arch = text "amd64";
  client_id = text "c1";
}

new_control_lem_example :
    (IsWelcome (text "secret") (text "2") login
      → new_control (text "secret") (text "2") (text "1.7") none login 2 one_control ≡ (
        (add_control (text "c1") 2 one_control).0,
        started
            (text "c1")
            (add_control (text "c1") 2 one_control).1
            (greeting (text "2") (text "1.7") (text "c1")),
      ))
    × (¬ IsWelcome (text "secret") (text "2") login
        → Refuses
            (text "secret")
            (text "2")
            login
            one_control
            (new_control (text "secret") (text "2") (text "1.7") none login 2 one_control))
new_control_lem_example =
    new_control_lem (text "secret") (text "2") (text "1.7") none login 2 one_control
      (λ e. absurd cc)
