-- ===== src/Proxy/Singbox/Tags.antt =====
-- The names in a configuration of proxy/config_builder.rs: each one that is used is declared.
use network_client.Prelude.{
  ℕ, ◌≡◌, refl, sym, ap, subst, ◌∙◌, arith, Option, none, some, List, ◌∷◌, ◌++◌, any, Text, t,
  text_eq, Json, get_member, json_object, json_index, SvcResult, SvcError, config_invalid, ok, err,
}
use network_client.Nodes.Model.{Node}
use network_client.Config.Schema.{DnsConfig}
use network_client.Proxy.SingboxDns.{str, dns_entries, or_default_server, final_tag, dns_block}
use network_client.Proxy.SingboxDns.Declared.{
  items_of, items, has_tag, Declared, text_at, AllDeclared, final_tag-Declared, AllDeclared-detours,
  servers-AreServers, items-json_array,
}
use network_client.Proxy.Singbox.{document, node_outbound, build_singbox_config, protocol_members}

-- The default server of DNS is one of the servers; the detours of the servers, the targets of the rules
-- and the final target are outbounds.
pub record IsClosed (cfg : Json) : Type 0 where
  pub dns_final :
      let dns = json_index (t "dns") cfg in
      Declared (items (json_index (t "servers") dns)) (text_at (t "final") dns)
  pub detours :
      AllDeclared
        (items (json_index (t "outbounds") cfg))
        (t "detour")
        (items (json_index (t "servers") (json_index (t "dns") cfg)))
  pub rules :
      AllDeclared
        (items (json_index (t "outbounds") cfg))
        (t "outbound")
        (items (json_index (t "rules") (json_index (t "route") cfg)))
  pub final :
      Declared
        (items (json_index (t "outbounds") cfg))
        (text_at (t "final") (json_index (t "route") cfg))

abbrev node_object : Node → List (Text × Json) → Json
node_object node ms = json_object (
    (t "tag", str (t "node"))
    ∷ (t "server", str node.endpoint.host)
    ∷ (t "server_port", Json.number node.endpoint.port)
    ∷ ms)

document-IsClosed :
    (node : Node) (ms : List (Text × Json)) (port : ℕ) (dns : DnsConfig)
    → IsClosed (document (node_object node ms) port dns)
unfolding document dns_block json_index text_at get_member items items_of Declared AllDeclared
    has_tag text_eq
document-IsClosed node ms port dns =
    let servers = or_default_server (dns_entries 0 dns.servers) in
    let outbounds = items (json_index (t "outbounds") (document (node_object node ms) port dns)) in
    let (v, vs, e, h) = servers-AreServers dns in
    record {
      dns_final =
          ap (any (has_tag (final_tag servers))) (items-json_array servers)
          ∙ ap (λ ss. any (has_tag (final_tag ss)) ss) e
          ∙ final_tag-Declared v vs h;
      detours =
          subst (AllDeclared outbounds (t "detour")) (sym (items-json_array servers ∙ e))
            (AllDeclared-detours outbounds (v ∷ vs) refl h);
      rules = (refl, tt);
      final = refl;
    }

build_none :
    (show_json : Json → Text) (node : Node) (port : ℕ) (dns : DnsConfig)
    → protocol_members show_json node ≡ none
    → (x : SvcError) × (build_singbox_config show_json node port dns ≡ err x)
unfolding build_singbox_config node_outbound
build_none show_json node port dns f = (
  config_invalid (t "no core builder for protocol " ++ node.protocol),
  rw (f, build_singbox_config, node_outbound) refl,
)

build_some :
    (show_json : Json → Text) (node : Node) (port : ℕ) (dns : DnsConfig) (ms : List (Text × Json))
    → protocol_members show_json node ≡ some ms
    → build_singbox_config show_json node port dns ≡ ok (document (node_object node ms) port dns)
unfolding build_singbox_config node_outbound
build_some show_json node port dns ms f = rw (f, build_singbox_config, node_outbound) refl

ok_inj : {A : Type 0} {a b : A} → let r : SvcResult A = ok a in r ≡ ok b → a ≡ b
ok_inj e = ground arith

err_ne : {A : Type 0} {x : SvcError} {a : A} → let r : SvcResult A = err x in r ≡ ok a → ⊥
err_ne e = cc

-- A configuration of sing-box, where it is made, uses only names that it declares: the default server of
-- DNS is one of the servers, whatever their order, kinds and tags, and the detours of the servers, the
-- targets of the rules and the final target are outbounds.
pub build_singbox_config-IsClosed :
    (show_json : Json → Text) (node : Node) (port : ℕ) (dns : DnsConfig) (cfg : Json)
    → build_singbox_config show_json node port dns ≡ ok cfg
    → IsClosed cfg
build_singbox_config-IsClosed show_json node port dns cfg e =
    from (protocol_members show_json node) refl
  where
    from : (o : Option (List (Text × Json))) → protocol_members show_json node ≡ o → IsClosed cfg
    from none f =
        let (x, refused) = build_none show_json node port dns f in absurd (err_ne (sym refused ∙ e))
    from (some ms) f =
        subst IsClosed (ok_inj (sym (build_some show_json node port dns ms f) ∙ e))
          (document-IsClosed node ms port dns)
