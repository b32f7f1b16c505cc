-- ===== src/Client/Config/Print.antt =====
-- `formatConfiguration` of `src/ngrok/client/config.go`.
use ngrok.Prelude.{[], ◌∷◌, ◌++◌, if◌then◌else◌, length, ◌==◌}
use ngrok.Prelude.Maps.{Map}
use ngrok.Prelude.Text.{Text, text, same, decimal}
use ngrok.Client.Config.{Configuration, TunnelConfiguration}

-- `fmt.Fprintf(&b, "%s: %s\n", key, value)` behind an indentation, before what follows.
unfoldable pub pair_line : Text → Text → Text → Text → Text
pair_line indent key value rest = indent ++ (key ++ (text ": " ++ (value ++ b'\n' ∷ rest)))

-- `writeString` and `writeTunnelString`
unfoldable pub write_string : Text → Text → Text → Text → Text
write_string indent key value rest = if same value [] then rest else pair_line indent key value rest

unfoldable pub write_protocols : Map Text Text → Text → Text
write_protocols [] rest = rest
write_protocols ((proto, addr) ∷ m) rest =
    pair_line (text "      ") proto addr (write_protocols m rest)

unfoldable pub write_tunnel : Text → TunnelConfiguration → Text → Text
write_tunnel name t rest =
    text "  "
    ++ (name
        ++ (text ":\n"
            ++ write_string (text "    ") (text "subdomain") t.subdomain (
                write_string (text "    ") (text "hostname") t.hostname (
                  write_string (text "    ") (text "auth") t.http_auth (
                    write_string (text "    ") (text "remote_port")
                      (if t.remote_port == 0 then [] else decimal t.remote_port)
                      (if length t.protocols == 0
                        then rest
                        else text "    proto:\n" ++ write_protocols t.protocols rest))))))

unfoldable pub write_tunnels : Map Text TunnelConfiguration → Text
write_tunnels [] = []
write_tunnels ((name, t) ∷ m) = write_tunnel name t (write_tunnels m)

unfoldable pub format_configuration : Configuration → Text
format_configuration c = write_string [] (text "http_proxy") c.http_proxy (
    write_string [] (text "server_addr") c.server_addr (
      write_string [] (text "inspect_addr") c.inspect_addr (
        write_string [] (text "inspect_auth") c.inspect_auth (
          write_string [] (text "trust_host_root_certs")
            (if c.trust_host_root_certs then text "true" else [])
            (write_string [] (text "auth_token") c.auth_token (
              if length c.tunnels == 0
              then []
              else text "tunnels:\n" ++ write_tunnels c.tunnels))))))
