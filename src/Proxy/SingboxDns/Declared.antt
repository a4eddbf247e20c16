-- ===== src/Proxy/SingboxDns/Declared.antt =====
-- The tags of the DNS servers in proxy/config_builder.rs: the default one is declared, and a detour
-- leads to the node only.
use network_client.Prelude.{
  ℕ, ◌+◌, ◌≡◌, refl, sym, ap, subst, ◌∙◌, arith, Bool, true, false, Option, none, some, List, [],
  ◌∷◌, any, find, Text, t, text_eq, text_eq_refl, Json, Elements, get_member, json_array, as_text,
  Bool-cases, inl, inr, ◌⊎◌,
}
use network_client.Config.Schema.{DnsConfig, DnsServer}
use network_client.Proxy.SingboxDns.{
  dns_tag, dns_entry, dns_entries, address_of, or_default_server, tag_of, is_direct, tag_or,
  first_or, final_tag,
}

-- The entries of an array.
unfoldable pub items_of : Elements → List Json
items_of Elements.nil = []
items_of (Elements.cons v vs) = v ∷ items_of vs

unfoldable pub items : Json → List Json
unfolding items_of
items (Json.array vs) = items_of vs
items _ = []

-- A text at a key is one of the tags of the entries; where there is no text nothing is referred to.
unfoldable pub has_tag : Text → Json → Bool
unfolding get_member text_eq
has_tag tag v = elim (tag_of v) [ none ↦ false | some own ↦ text_eq own tag ]

unfoldable pub Declared : List Json → Option Text → Type 0
Declared entries none = Unit
Declared entries (some tag) = any (has_tag tag) entries ≡ true

unfoldable pub text_at : Text → Json → Option Text
unfolding get_member
text_at key v = elim (get_member key v) [ none ↦ none | some w ↦ as_text w ]

unfoldable pub AllDeclared : List Json → Text → List Json → Type 0
AllDeclared entries key [] = Unit
AllDeclared entries key (v ∷ vs) = Declared entries (text_at key v) × AllDeclared entries key vs

any-find :
    {A : Type 0} (p q : A → Bool) (xs : List A) (x : A)
    → find p xs ≡ some x
    → q x ≡ true
    → any q xs ≡ true
any-find p q [] x e h = absurd cc
any-find p q (y ∷ ys) x e h = ground (arith, any-find p q ys x)

-- The servers: each has a text as its tag, and a detour only to the node.
pub IsServer : Json → Type 0
IsServer v =
    ((tag : Text) × (tag_of v ≡ some tag))
    × ((text_at (t "detour") v ≡ none) ⊎ (text_at (t "detour") v ≡ some (t "node")))

pub AreServers : List Json → Type 0
AreServers [] = Unit
AreServers (v ∷ vs) = IsServer v × AreServers vs

IsServer-dns_entry : (i : ℕ) (s : DnsServer) (address : Text) → IsServer (dns_entry i s address)
unfolding IsServer dns_entry text_at get_member
IsServer-dns_entry i s address = (
  (dns_tag i s, refl),
  elim (Bool-cases (text_eq s.tag (t "proxy"))) [
    | inl remote ↦ inr (rw remote refl)
    | inr near ↦ inl (rw near refl)
  ],
)

AreServers-dns_entries : (i : ℕ) (ss : List DnsServer) → AreServers (dns_entries i ss)
unfolding AreServers dns_entries
AreServers-dns_entries i [] = tt
AreServers-dns_entries i (s ∷ ss) = from (address_of s) (AreServers-dns_entries (i + 1) ss)
  where
    from :
        (o : Option Text)
        → AreServers (dns_entries (i + 1) ss)
        → AreServers (elim (o) [
          | none ↦ dns_entries (i + 1) ss
          | some address ↦ dns_entry i s address ∷ dns_entries (i + 1) ss
        ])
    from none rest = rest
    from (some address) rest = (IsServer-dns_entry i s address, rest)

AreServers-or_default_server : (vs : List Json) → AreServers vs → AreServers (or_default_server vs)
unfolding AreServers or_default_server IsServer text_at get_member
AreServers-or_default_server [] h = (((t "dns-direct", refl), inl refl), tt)
AreServers-or_default_server (v ∷ vs) h = h

tag_or-tag_of : (v : Json) (tag : Text) → tag_of v ≡ some tag → tag_or v ≡ tag
unfolding tag_or
tag_or-tag_of v tag e = rw (e, tag_or) refl

has_tag-tag_of : (v : Json) (tag : Text) → tag_of v ≡ some tag → has_tag tag v ≡ true
unfolding has_tag
has_tag-tag_of v tag e = rw (e, has_tag) (text_eq_refl tag)

named_own : (v : Json) (tag : Text) → tag_of v ≡ some tag → has_tag (tag_or v) v ≡ true
named_own v tag e = ap (λ x. has_tag x v) (tag_or-tag_of v tag e) ∙ has_tag-tag_of v tag e

untagged : (v : Json) → tag_of v ≡ none → is_direct v ≡ false
unfolding is_direct
untagged v e = rw (e, is_direct) refl

direct_own : (v : Json) → is_direct v ≡ true → has_tag (tag_or v) v ≡ true
direct_own v h = from (tag_of v) refl
  where
    from : (o : Option Text) → tag_of v ≡ o → has_tag (tag_or v) v ≡ true
    from none e = absurd (ground (arith, untagged v e))
    from (some tag) e = named_own v tag e

find_holds : {A : Type 0} (p : A → Bool) (xs : List A) (x : A) → find p xs ≡ some x → p x ≡ true
find_holds p [] x e = absurd cc
find_holds p (y ∷ ys) x e = ground (arith, find_holds p ys x)

-- The final tag of some servers is the tag of one of them.
pub final_tag-Declared :
    (v : Json) (vs : List Json)
    → AreServers (v ∷ vs)
    → any (has_tag (final_tag (v ∷ vs))) (v ∷ vs) ≡ true
unfolding final_tag AreServers IsServer
final_tag-Declared v vs (((tag, named), _), _) = from (find is_direct (v ∷ vs)) refl
  where
    from :
        (o : Option Json)
        → find is_direct (v ∷ vs) ≡ o
        → any (has_tag (first_or o (v ∷ vs))) (v ∷ vs) ≡ true
    from none e = rw (named_own v tag named) refl
    from (some s) e =
        any-find is_direct (has_tag (tag_or s)) (v ∷ vs) s e
          (direct_own s (find_holds is_direct (v ∷ vs) s e))

pub AllDeclared-detours :
    (entries vs : List Json)
    → any (has_tag (t "node")) entries ≡ true
    → AreServers vs
    → AllDeclared entries (t "detour") vs
unfolding AllDeclared AreServers IsServer Declared
AllDeclared-detours entries [] node h = tt
AllDeclared-detours entries (v ∷ vs) node ((_, detour), h) =
    (declared (text_at (t "detour") v) detour, AllDeclared-detours entries vs node h)
  where
    declared : (o : Option Text) → (o ≡ none) ⊎ (o ≡ some (t "node")) → Declared entries o
    declared o (inl nowhere) = subst (Declared entries) (sym nowhere) tt
    declared o (inr there) = subst (Declared entries) (sym there) node

pub servers-AreServers :
    (dns : DnsConfig)
    → (v : Json) × (vs : List Json) × (or_default_server (dns_entries 0 dns.servers) ≡ v ∷ vs)
      × AreServers (v ∷ vs)
unfolding or_default_server
servers-AreServers dns = from (dns_entries 0 dns.servers) (
    AreServers-or_default_server (dns_entries 0 dns.servers) (AreServers-dns_entries 0 dns.servers))
  where
    from :
        (entries : List Json)
        → AreServers (or_default_server entries)
        → (v : Json) × (vs : List Json) × (or_default_server entries ≡ v ∷ vs) × AreServers (v ∷ vs)
    from [] h = (_, _, refl, h)
    from (v ∷ vs) h = (v, vs, refl, h)

pub items-json_array : (vs : List Json) → items (json_array vs) ≡ vs
unfolding items items_of
items-json_array [] = refl
items-json_array (v ∷ vs) = ap (λ ws. v ∷ ws) (items-json_array vs)
