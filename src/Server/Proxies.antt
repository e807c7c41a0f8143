-- ===== src/Server/Proxies.antt =====
-- src/server/proxy/proxy.go: the manager of all proxies of the server, by name. A Proxy is known by a number,
-- its name and the ports that it counts for.
use frpcv.Prelude.{
  if◌then◌else◌, Text, text_eq, nat_eq, Map, is_some, no_entries, put, del, ℕ, Bool, Option, none,
  some,
}

pub record Proxy : Type 0 where
  pub id : ℕ
  pub name : Text
  pub used_ports_num : ℕ

pub record ProxyManager : Type 0 where
  pub pxys : Map Text Proxy

abbrev pub new_proxy_manager : ProxyManager
new_proxy_manager = record { pxys = no_entries }

-- `none` is the error that the name is in use.
unfoldable pub add : ProxyManager → Text → Proxy → Option ProxyManager
add pm name pxy =
    if is_some (pm.pxys name) then none else some (record { pxys = put name pxy pm.pxys })

unfoldable pub exist : ProxyManager → Text → Bool
exist pm name = is_some (pm.pxys name)

unfoldable pub delete : ProxyManager → Text → ProxyManager
delete pm name = record { pxys = del name pm.pxys }

unfoldable pub get_by_name : ProxyManager → Text → Option Proxy
get_by_name pm name = pm.pxys name
