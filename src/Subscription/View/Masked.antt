-- ===== src/Subscription/View/Masked.antt =====
-- What stands after the host of a subscription's URL never reaches a view.
use network_client.Prelude.{
  ◌≡◌, refl, sym, ap, ◌∙◌, arith, some, List, [], ◌∷◌, ◌++◌, map, Text, t, Lacks, split_once,
  split_once_text, split_once-append, SvcResult, SvcError, ok, err,
}
use network_client.Subscription.Manager.{Subscription, SubscriptionManager, Secrets, values}
use network_client.Subscription.View.{
  site, masked, mask_url, shown_url, view, to_view, sort_by_name, list_views,
}

-- The first `://` is the one after the scheme.
split_once_text-scheme :
    (scheme r : Text)
    → Lacks b':' scheme
    → split_once_text (t "://") (scheme ++ (t "://" ++ r)) ≡ some (scheme, r)
unfolding split_once_text
split_once_text-scheme [] r h = refl
split_once_text-scheme (c ∷ s) r (ne, h) = ground (arith, ne, split_once_text-scheme s r h)

-- A URL of which only the part after the host's `/` is kept from the client.
pub address : Text → Text → Text → Text
address scheme host path = scheme ++ (t "://" ++ (host ++ b'/' ∷ path))

mask_url-address :
    (scheme host path : Text)
    → Lacks b':' scheme
    → Lacks b'/' host
    → mask_url (address scheme host path) ≡ scheme ++ t "://" ++ host ++ t "/****"
unfolding mask_url masked site address
mask_url-address scheme host path h k =
    let rest = host ++ b'/' ∷ path in
    let cut : mask_url (address scheme host path) ≡ masked (some (scheme, rest)) =
      ap masked (split_once_text-scheme scheme rest h) in
    let stop : masked (some (scheme, rest)) ≡ scheme ++ t "://" ++ host ++ t "/****" =
      ap (λ o. scheme ++ t "://" ++ site rest o ++ t "/****")
        (split_once-append b'/' host path k) in
    cut ∙ stop

-- Two results of a decryption: URLs that differ after the `/` of the host only, or two failures.
pub data SameSite : SvcResult Text → SvcResult Text → Type 0 where
  urls :
      (scheme host p q : Text)
      → Lacks b':' scheme
      → Lacks b'/' host
      → SameSite (ok (address scheme host p)) (ok (address scheme host q))
  failures : (e f : SvcError) → SameSite (err e) (err f)

shown_url-SameSite : (r s : SvcResult Text) → SameSite r s → shown_url r ≡ shown_url s
unfolding shown_url
shown_url-SameSite _ _ (urls scheme host p q h k) =
    mask_url-address scheme host p h k ∙ sym (mask_url-address scheme host q h k)
shown_url-SameSite _ _ (failures e f) = refl

-- Every URL of the subscriptions is decrypted to the same, but for what stands after the host.
abbrev pub AllSameSite : Secrets → Secrets → List Subscription → Type 0
AllSameSite k l [] = Unit
AllSameSite k l (s ∷ ss) = SameSite (k.unprotect s.url) (l.unprotect s.url) × AllSameSite k l ss

map-to_view :
    (k l : Secrets) (ss : List Subscription)
    → AllSameSite k l ss
    → map (to_view k) ss ≡ map (to_view l) ss
unfolding to_view
map-to_view k l [] h = refl
map-to_view k l (s ∷ ss) (same, h) =
    ap (λ v. v ∷ map (to_view k) ss) (ap (view s) (shown_url-SameSite _ _ same))
    ∙ ap (λ vs. to_view l s ∷ vs) (map-to_view k l ss h)

-- The views that the client is shown, and their order, are the same whatever stands after the host's `/` in
-- the URLs, which is where providers put their tokens, and whichever error a decryption fails with. The
-- scheme of a URL has no colon.
pub list_views-AllSameSite :
    (k l : Secrets) (m : SubscriptionManager)
    → AllSameSite k l (values m.items)
    → list_views k m ≡ list_views l m
unfolding list_views
list_views-AllSameSite k l m h = ap sort_by_name (map-to_view k l (values m.items) h)

-- A token after a host without a `/` is shown.
mask_url_query : mask_url (t "https://h.io?token=1") ≡ t "https://h.io?token=1/****"
unfolding mask_url masked split_once_text split_once
mask_url_query = refl
