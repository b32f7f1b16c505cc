-- ===== src/Lib.antt =====
-- The ngrok tunnel server, its client and its administration, as definitions that run and theorems on them.
--
-- The server (src/ngrok/server) takes control connections from clients, opens tunnels for them and
-- passes public connections on to the clients. Its parts here:
-- - Cache: the LRU cache of src/ngrok/cache/lru.go. The list of container/list is a list of
--   addresses with entries; sizes are numbers below 2^64, with the wrap-around of uint64 written out.
-- - Msg: the messages, frames and the choice of a type by its name, src/ngrok/msg. Frame is
--   readMsgShared and WriteMsg on bytes; Pack takes encoding/json as a record of functions with the
--   documented inverses.
-- - Server/Names, Server/Vhosts: host names and domains, tunnel.go and main.go.
-- - Server/Registry: TunnelRegistry of registry.go with its affinity cache. Server/Controls:
--   ControlRegistry with a store of controls, since Add writes to the control that it replaces; the
--   two steps of a stopper are steps of their own, which Add may come between.
-- - Server/Tunnel: NewTunnel and Shutdown of tunnel.go. Vhost is registerVhost, Tcp the case tcp,
--   State the records they work on. Opening and Lifetime hold the theorems.
-- - Server/Control: NewControl, registerTunnel and the manager of control.go. Server/Proxies: the
--   pool of proxy connections, RegisterProxy and GetProxy.
-- - Server/Slots: the connection slots of main.go. Server/Http: httpHandler of http.go and the loop
--   of HandlePublicConnection. Server/Tls: certSource and certReloader of tls.go.
-- - Client/Config: config.go of src/ngrok/client. Lines and Parse are parseConfiguration, Print is
--   formatConfiguration, Address the checks of addresses, Load is LoadConfiguration with its commands
--   and SaveAuthToken. A line of 64 KiB or more is too long for bufio.Scanner.
-- - Client/Model: model.go of src/ngrok/client. The loop of control is a run over the messages that
--   arrive; Backoff is Run, Heartbeat heartbeat, Proxy proxy. The tickers of the
--   heartbeat are taken to keep their intervals, a tick being handled less than two seconds late. Answers and
--   Tunnels are about the tunnels that the client knows. SaveAuthToken, which control calls after
--   the authentication, changes a file only.
-- - Admin: src/ngrok/admin/main.go. Config and Env are the settings and their environment file, where
--   strconv.Quote and Unquote are a record of functions; Names and CertArgs are the domains and the
--   options for their certificates; Domains holds the requests that change them, as functions from the
--   old file to the new one; Sessions the setup, the login and the cookies, with HMAC and base64 as
--   functions; Pages the files for nginx and for clients; Checks what is shown of names and credentials.
-- - Util: ring.go, shutdown.go, broadcast.go and id.go of src/ngrok/util.
-- - Prelude: texts, maps, numbers and tests that the parts share; texts are lists of bytes.
-- - Tests: runs on fixed inputs and instances of the theorems.
--
-- Admin writes the files that Client/Config and the server read; Client/Model answers what
-- Server/Control sends. Control calls Tunnel for each protocol of a request; Tunnel registers URLs
-- in Registry, which caches them in Cache; Http looks tunnels up in Registry; Controls begins a
-- Shutdown of Util.
--
-- Locks make each operation on a registry or a cache one step. What comes from outside is an
-- argument: the time, random numbers, the ports that the system binds, files, certificates and the
-- parser of requests. A panic or a fault is the value `none`, or a constructor `panicked`. Loops are
-- structural recursion; digits are written with the number itself as fuel, which is enough since
-- each digit divides it by ten or sixteen; the eviction of the cache takes the length of the list as
-- fuel, since each round removes an entry. Ports are below 2^16 and random numbers below 2^31;
-- letters and white space are those of ASCII where Go has those of Unicode, so names and values with
-- others at their ends are outside the model; names below 2^62 characters keep every URL below the
-- 2^63 bytes that the cache can count.
--
-- Not modelled: the controller and the views of the client, the commands that the administration
-- runs and its pages, the metrics, logging, the views and the connections themselves, which are
-- network input and output or are yet to be added; the reader and the writer of a control, which
-- move messages between a channel and a connection; the thread that saves the affinity cache.
pub mod Prelude
pub mod Admin
pub mod Cache
pub mod Client
pub mod Msg
pub mod Server
pub mod Util
mod Tests
