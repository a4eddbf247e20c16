-- ===== src/Dns/Fresh.antt =====
-- The size and the answers of the cache of dns/cache.rs.
use network_client.Prelude.{
  ℕ, suc, ◌+◌, ◌≤◌, ◌<◌, ◌≡◌, refl, Bool, true, false, none, some, List, [], ◌∷◌, length, filter,
  Text, to_ascii_lowercase, insert, remove, lookup-insert, length-filter-le, text_eq_refl,
  text_eq_iff, arith, if◌then◌else◌, inl, inr, ◌⊎◌, ltb, sym, max,
}
use network_client.Dns.Cache.{
  Entry, DnsCache, new, get, oldest_from, drop_oldest, is_live, evict, lifetime, put, flush,
}

-- A call of the cache.
pub data Call (Ip : Type 0) : Type 0 where
  gets : ℕ → Text → Call Ip
  puts : ℕ → Text → List Ip → ℕ → Call Ip
  flushes : Call Ip

module _ {Ip : Type 0} where
  unfoldable pub serve : List (Call Ip) → DnsCache Ip → DnsCache Ip
  serve [] c = c
  serve (gets now name ∷ calls) c = serve calls (get now name c).0
  serve (puts now name ips min_ttl ∷ calls) c = serve calls (put now name ips min_ttl c)
  serve (flushes ∷ calls) c = serve calls (flush c)

  length-insert :
      (k : Text) (e : Entry Ip) (g : List (Text × Entry Ip))
      → length (insert k e g) ≤ suc (length g)
  unfolding insert
  length-insert k e [] = ground arith
  length-insert k e ((j, d) ∷ g) = ground (arith, length-insert k e g)

  length-remove-le : (k : Text) (g : List (Text × Entry Ip)) → length (remove k g) ≤ length g
  unfolding remove
  length-remove-le k [] = ground arith
  length-remove-le k ((j, d) ∷ g) = ground (arith, length-remove-le k g)

  HasKey : Text → List (Text × Entry Ip) → Type 0
  HasKey k [] = ⊥
  HasKey k ((j, _) ∷ g) = (j ≡ k) ⊎ HasKey k g

  length-remove-HasKey :
      (k : Text) (g : List (Text × Entry Ip)) → HasKey k g → length (remove k g) < length g
  unfolding HasKey remove
  length-remove-HasKey k [] h = absurd h
  length-remove-HasKey k ((j, e) ∷ g) (inl same) =
      ground (arith, length-remove-le k g, text_eq_iff j k)
  length-remove-HasKey k ((j, e) ∷ g) (inr h) =
      ground (arith, length-remove-HasKey k g h, length-remove-le k g)

  HasKey-of_choice :
      (b : Bool) (k j x y : Text) (g : List (Text × Entry Ip))
      → (x ≡ j) ⊎ HasKey x g
      → (y ≡ k) ⊎ HasKey y g
      → let r = if b then x else y in (r ≡ k) ⊎ ((j ≡ r) ⊎ HasKey r g)
  HasKey-of_choice true k j x y g (inl same) q = inr (inl (sym same))
  HasKey-of_choice true k j x y g (inr there) q = inr (inr there)
  HasKey-of_choice false k j x y g p (inl same) = inl same
  HasKey-of_choice false k j x y g p (inr there) = inr (inr there)

  -- The key that is found is the first or one of the table.
  HasKey-oldest_from :
      (k : Text) (time : ℕ) (g : List (Text × Entry Ip))
      → (oldest_from k time g ≡ k) ⊎ HasKey (oldest_from k time g) g
  unfolding oldest_from HasKey
  HasKey-oldest_from k time [] = inl refl
  HasKey-oldest_from k time ((j, e) ∷ g) =
      HasKey-of_choice (ltb e.expire_at time) k j _ _ g (HasKey-oldest_from j e.expire_at g)
        (HasKey-oldest_from k time g)

  length-drop_oldest :
      (g : List (Text × Entry Ip)) → 1 ≤ length g → length (drop_oldest g) < length g
  unfolding drop_oldest HasKey
  length-drop_oldest [] h = ground arith
  length-drop_oldest ((k, e) ∷ g) h =
      length-remove-HasKey (oldest_from k e.expire_at g) ((k, e) ∷ g)
        (elim (HasKey-oldest_from k e.expire_at g) [
          | inl same ↦ inl (sym same)
          | inr there ↦ inr there
        ])

  length-evict :
      (now limit : ℕ) (g : List (Text × Entry Ip))
      → 1 ≤ limit
      → length g ≤ limit
      → length (evict now limit g) < limit
  unfolding evict
  length-evict now limit g one fit =
      ground (arith, length-filter-le (is_live now) g, length-drop_oldest (filter (is_live now) g))

  -- A cache that is within its size, which is not 0, is within it after a `put`, whatever the table
  -- holds.
  pub length-put :
      (now : ℕ) (name : Text) (ips : List Ip) (min_ttl : ℕ) (c : DnsCache Ip)
      → 1 ≤ c.max_size
      → length c.inner ≤ c.max_size
      → length (put now name ips min_ttl c).inner ≤ c.max_size
  unfolding put
  length-put now name ips min_ttl c one fit = ground (
    arith,
    length-evict now c.max_size c.inner one fit,
    length-insert (to_ascii_lowercase name)
        (record { ips = ips; expire_at = now + lifetime min_ttl }) (evict now c.max_size c.inner),
  )

  -- What an enabled cache answers after a `put` of some addresses: to the same name, in upper or lower
  -- case, the addresses until the lifetime, of at least 10 and at most 600 seconds, is over, and
  -- nothing from then on.
  pub get-put :
      (now later : ℕ) (name asked : Text) (ip : Ip) (ips : List Ip) (min_ttl : ℕ) (c : DnsCache Ip)
      → c.enabled ≡ true
      → to_ascii_lowercase asked ≡ to_ascii_lowercase name
      → (get later asked (put now name (ip ∷ ips) min_ttl c)).1
        ≡ (if ltb later (now + lifetime min_ttl) then some (ip ∷ ips) else none)
  unfolding get put
  get-put now later name asked ip ips min_ttl c on same =
      let entry : Entry Ip = record { ips = ip ∷ ips; expire_at = now + lifetime min_ttl } in
      let found =
        lookup-insert (to_ascii_lowercase name) (to_ascii_lowercase asked) entry
          (evict now c.max_size c.inner) in
      ground (arith, found, on, same, text_eq_refl (to_ascii_lowercase name))

  pub get-within :
      (now : ℕ) (name : Text) (c : DnsCache Ip)
      → length c.inner ≤ c.max_size
      → (length (get now name c).0.inner ≤ c.max_size) × ((get now name c).0.max_size ≡ c.max_size)
  unfolding get
  get-within now name c fit = ground (arith, length-remove-le (to_ascii_lowercase name) c.inner)

  pub put-max_size :
      (now : ℕ) (name : Text) (ips : List Ip) (min_ttl : ℕ) (c : DnsCache Ip)
      → (put now name ips min_ttl c).max_size ≡ c.max_size
  unfolding put
  put-max_size now name ips min_ttl c = ground arith

  serve-within :
      (calls : List (Call Ip)) (c : DnsCache Ip)
      → 1 ≤ c.max_size
      → length c.inner ≤ c.max_size
      → length (serve calls c).inner ≤ c.max_size
  unfolding serve flush
  serve-within [] c one fit = fit
  serve-within (gets now name ∷ calls) c one fit =
      let (le, same) = get-within now name c fit in
      ground (arith, le, same, one, serve-within calls (get now name c).0)
  serve-within (puts now name ips min_ttl ∷ calls) c one fit = ground (
    arith,
    put-max_size now name ips min_ttl c,
    one,
    length-put now name ips min_ttl c one fit,
    serve-within calls (put now name ips min_ttl c),
  )
  serve-within (flushes ∷ calls) c one fit = serve-within calls (flush c) one (omega arith)

  -- Whatever is asked and stored, a cache never holds more names than its size, which is the
  -- configured one or 16 if that is less.
  pub length-serve :
      (enabled : Bool) (size : ℕ) (calls : List (Call Ip))
      → length (serve calls (new enabled size)).inner ≤ max size 16
  unfolding new
  length-serve enabled size calls =
      serve-within calls (new enabled size) (omega arith) (omega arith)
