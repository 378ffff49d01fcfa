-- ===== src/Tests/Handlers.antt =====
-- Requests to a server with three tunnels and one VPN client.
use wg_proxy.Common.{◌≡◌, refl, Option, none, some, [], ◌∷◌, arith}
use wg_proxy.Common.Bytes.{Bytes, codes, bytes_eq, decimal}
use wg_proxy.Common.Errors.{ok, err}
use wg_proxy.Common.Strings.{has_prefix}
use wg_proxy.Common.Ini.{values, is_line}
use wg_proxy.Handlers.Imports.{signed_decimal, handle_import_custom}
use wg_proxy.WgServer.Server.{Server}
use wg_proxy.Tunnels.Manager.{write_file}
use wg_proxy.Tunnels.Manager.Actions.{in_time, removed}
use wg_proxy.Health.{new_checker}
use wg_proxy.Proxy.Countries.{no_countries}
use wg_proxy.WgServer.Peers.{written}
use wg_proxy.WgServer.Routing.{new_controller}
use wg_proxy.WgServer.Routing.Modes.{new_controller-IsConsistent}
use wg_proxy.Handlers.{App, Method, post, Custom, Wanted, Request, Outside, Response}
use wg_proxy.Handlers.Vpn.{handle_wg_peers}
use wg_proxy.Handlers.Routes.{
  import_route, tunnel_route, wg_peer_route, dashboard_route, route, dispatch, handle,
}
use wg_proxy.Handlers.Soundness.{IsSound, handle-IsSound}
use wg_proxy.Handlers.Requests.{handle_import_custom-values}
use wg_proxy.Tests.Dashboard.{rendering}
use wg_proxy.Tests.Tunnels.{host, world, world-IsValid}
use wg_proxy.Tests.WgServer.{same, dotted, dotted-NoSlash, server, server-AreApart, answers, full}

abbrev app : App
app = record {
  world = world;
  checker = new_checker;
  countries = no_countries;
  wg = some server;
  routing = some new_controller;
}

abbrev outside : Outside
outside = record {
  exit = in_time none;
  removal = removed;
  import_fault = none;
  download = λ url. err full;
  answers = answers (written same);
  writing = written same;
  public_ip = codes "192.0.2.1";
  index_file = ok (codes "<html>");
}

abbrev values_of_form : Custom
values_of_form = record {
  name = codes "nl-1";
  private_key = codes "k";
  address = codes "10.2.0.2/32";
  dns = codes "10.2.0.1";
  peer_pubkey = codes "K";
  endpoint = codes "192.0.2.9:51820";
  persistent_keepalive = 0;
}

abbrev wanted : Wanted
wanted = record { mode = codes "proxied"; country = codes "NL"; port = 0 }

abbrev request : Method → Bytes → Request
request m path = record {
  method = m;
  path = path;
  form = none;
  file = err full;
  url = err full;
  custom = ok values_of_form;
  peer_name = ok (codes "laptop");
  wanted = ok wanted;
}

-- A tunnel whose name is that of an import cannot be reached by its path.
route_tests :
    (route (codes "/api/tunnels/us-1") ≡ tunnel_route)
    × (route (codes "/api/tunnels/import") ≡ import_route)
    × (route (codes "/api/wg/peers/phone/config") ≡ wg_peer_route)
    × (route (codes "/index.html") ≡ dashboard_route)
unfolding route bytes_eq has_prefix
route_tests = (refl, refl, refl, refl)

abbrev joined : Option Server × Response
joined =
    handle_wg_peers host.quote dotted outside (request post (codes "/api/wg/peers")) (some server)

answered :
    handle host dotted rendering outside (request post (codes "/api/wg/peers")) app
    ≡ some (record app { wg = joined.0 }, joined.1)
unfolding handle dispatch route bytes_eq
answered = refl

app-IsSound : IsSound app
app-IsSound = record {
  manager = world-IsValid;
  clients = server-AreApart;
  routing = new_controller-IsConsistent;
}

handle-IsSound_example : IsSound (record app { wg = joined.0 })
handle-IsSound_example =
    handle-IsSound host dotted rendering outside (request post (codes "/api/wg/peers")) app
      (record app { wg = joined.0 }) joined.1 dotted-NoSlash (omega arith) answered app-IsSound

handle_import_custom-values_example :
    (text : Bytes) × ((handle_import_custom host outside
        (request post (codes "/api/tunnels/import-custom"))
        world).0.calls
      ≡ write_file (codes "/c/nl-1.conf") text ∷ [])
    × (values text
        ≡ some (codes "k")
          ∷ some (codes "10.2.0.2/32")
          ∷ some (codes "10.2.0.1")
          ∷ some (codes "K")
          ∷ some (codes "192.0.2.9:51820")
          ∷ some (codes "0.0.0.0/0")
          ∷ some (codes "25")
          ∷ [])
unfolding is_line signed_decimal decimal
handle_import_custom-values_example =
    handle_import_custom-values host outside (request post (codes "/api/tunnels/import-custom"))
      values_of_form world refl refl refl refl refl refl refl refl refl
