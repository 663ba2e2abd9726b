-- ===== src/Morpheus/Links/Takeover.antt =====
-- Exactly which clicks and pointer movements packages/morpheus/src/morpheus.js acts on.
use hacienda.Prelude.{
  ℕ, ◌≡◌, refl, ◌↔◌, ◌⊎◌, ◌≢◌, Bool, true, false, Option, none, some, [], ◌∷◌, Text, codes, ===_iff,
  includes, arith, ap,
}
use hacienda.Morpheus.State.{PrefetchMode, disabled, enabled}
use hacienda.Morpheus.Links.{
  Address, eligible_url, only_changes_hash, is_empty, Click, Link, eligible_click, take_over,
  handle_click, Connection, prefetch_enabled, IntentType, mouseover, handle_prefetch_intent,
}

-- A URL of the page's own origin, over http or https.
pub record IsLocal (location url : Address) : Type 0 where
  pub same_origin : url.origin ≡ location.origin
  pub web : (url.protocol ≡ codes "http:") ⊎ (url.protocol ≡ codes "https:")

eligible_url_sound :
    (location url : Address) → eligible_url location url ≡ true → IsLocal location url
unfolding eligible_url includes
eligible_url_sound location url h = record {
  same_origin = ground (arith, ===_iff url.origin location.origin);
  web = ground (arith, ===_iff (codes "http:") url.protocol, ===_iff (codes "https:") url.protocol);
}

eligible_url_complete :
    (location url : Address) → IsLocal location url → eligible_url location url ≡ true
unfolding eligible_url includes
eligible_url_complete location url h = ground (
  arith,
  ===_iff url.origin location.origin,
  ===_iff (codes "http:") url.protocol,
  ===_iff (codes "https:") url.protocol,
)

-- `eligible_url` decides `IsLocal`.
pub eligible_url-IsLocal :
    (location url : Address) → (eligible_url location url ≡ true) ↔ IsLocal location url
eligible_url-IsLocal location url =
    (eligible_url_sound location url, eligible_url_complete location url)

-- A plain left click on a link of the page's own site that opens in the same place.
pub record IsPlain (location : Address) (event : Click) (link : Link) : Type 0 where
  pub left : event.button ≡ 0
  pub no_meta : event.meta_key ≡ false
  pub no_ctrl : event.ctrl_key ≡ false
  pub no_shift : event.shift_key ≡ false
  pub no_alt : event.alt_key ≡ false
  pub unhandled : event.default_prevented ≡ false
  pub same_place : (link.target ≡ []) ⊎ (link.target ≡ codes "_self")
  pub no_download : link.has_download ≡ false
  pub not_off : link.switched_off ≡ false
  pub not_external : link.external ≡ false
  pub local : IsLocal location link.address

-- The URL differs from the page's in its hash alone, and names one.
pub record IsHashChange (location url : Address) : Type 0 where
  pub same_path : url.pathname ≡ location.pathname
  pub same_search : url.search ≡ location.search
  pub has_hash : url.hash ≢ []
  pub other_hash : url.hash ≢ location.hash

is_empty_iff : (s : Text) → (is_empty s ≡ true) ↔ (s ≡ [])
is_empty_iff [] = (λ _. refl, λ _. refl)
is_empty_iff (c ∷ s) = (λ h. cc, λ h. cc)

only_changes_hash_sound :
    (location url : Address) → only_changes_hash location url ≡ true → IsHashChange location url
unfolding only_changes_hash
only_changes_hash_sound location url h = record {
  same_path = ground (arith, ===_iff url.pathname location.pathname);
  same_search = ground (arith, ===_iff url.search location.search);
  has_hash = λ e. ground (arith, is_empty_iff url.hash);
  other_hash = λ e. ground (arith, ===_iff url.hash location.hash);
}

only_changes_hash_complete :
    (location url : Address) → IsHashChange location url → only_changes_hash location url ≡ true
unfolding only_changes_hash
only_changes_hash_complete location url h = ground (
  arith,
  ===_iff url.pathname location.pathname,
  ===_iff url.search location.search,
  is_empty_iff url.hash,
  ===_iff url.hash location.hash,
  h.has_hash,
  h.other_hash,
)

eligible_click_sound :
    (location : Address) (event : Click) (link : Link)
    → eligible_click event link ≡ true
    → link.has_download ≡ false
    → link.switched_off ≡ false
    → link.external ≡ false
    → IsLocal location link.address
    → IsPlain location event link
unfolding eligible_click
eligible_click_sound location event link h d o e l = record {
  left = ground arith;
  no_meta = ground arith;
  no_ctrl = ground arith;
  no_shift = ground arith;
  no_alt = ground arith;
  unhandled = ground arith;
  same_place = ground (arith, is_empty_iff link.target, ===_iff link.target (codes "_self"));
  no_download = d;
  not_off = o;
  not_external = e;
  local = l;
}

eligible_click_complete :
    (location : Address) (event : Click) (link : Link)
    → IsPlain location event link
    → eligible_click event link ≡ true
unfolding eligible_click
eligible_click_complete location event link p =
    ground (arith, is_empty_iff link.target, ===_iff link.target (codes "_self"), p.same_place)

-- `handleClick` takes the click over exactly if it is a plain click on a link of the page's own
-- origin, which does not merely change the hash, and `morpheus:before-navigate` is not cancelled;
-- it then navigates to the link's URL.
pub handle_click_iff :
    (location : Address) (accepted : Bool) (event : Click) (link : Link) (url : Text)
    → (handle_click location accepted event (some link) ≡ take_over url) ↔ (
        IsPlain location event link
        × (¬ IsHashChange location link.address)
        × (accepted ≡ true)
        × (url ≡ link.address.href))
unfolding handle_click
handle_click_iff location accepted event link url = (
  λ h. (
    ground
        (arith, eligible_click_sound location event link, eligible_url_sound location link.address),
    λ c. ground (arith, only_changes_hash_complete location link.address c),
    ground arith,
    ground arith,
  ),
  λ h. ground (
    arith,
    h.0.local,
    eligible_click_complete location event link h.0,
    eligible_url_complete location link.address,
    h.1,
    only_changes_hash_sound location link.address,
  ),
)

-- What a pointer or focus event may fetch ahead of a click.
pub record IsPrefetchable (location : Address) (link : Link) : Type 0 where
  pub no_download : link.has_download ≡ false
  pub not_off : link.switched_off ≡ false
  pub not_external : link.external ≡ false
  pub not_prefetch_off : link.prefetch_off ≡ false
  pub local : IsLocal location link.address

-- The connection neither saves data nor is slow.
abbrev pub IsFast : Option Connection → Type 0
IsFast none = Unit
IsFast (some c) =
    (c.save_data ≡ false) × (c.effective_type ≢ codes "slow-2g") × (c.effective_type ≢ codes "2g")

prefetch_enabled_sound :
    (mode : PrefetchMode) (connection : Option Connection)
    → prefetch_enabled mode connection ≡ true
    → (mode ≡ enabled (codes "intent")) × IsFast connection
unfolding prefetch_enabled includes
prefetch_enabled_sound disabled connection h = cc
prefetch_enabled_sound (enabled name) none h =
    (ap enabled ((===_iff name (codes "intent")).0 h), tt)
prefetch_enabled_sound (enabled name) (some c) h = (
  ap enabled ((===_iff name (codes "intent")).0 (ground arith)),
  (
    ground arith,
    λ e. ground (arith, ===_iff (codes "slow-2g") c.effective_type),
    λ e. ground (arith, ===_iff (codes "2g") c.effective_type),
  ),
)

-- What `handlePrefetchIntent` schedules is the URL of an eligible link, with prefetching on and the
-- connection fast, after 75 milliseconds for the pointer and at once for focus and touch.
pub handle_prefetch_intent_sound :
    (mode : PrefetchMode) (connection : Option Connection) (location : Address) (type : IntentType)
    (from_inside : Bool) (link : Link) (delay : ℕ) (url : Text)
    → handle_prefetch_intent mode connection location type from_inside (some link)
      ≡ some (delay, url)
    → (mode ≡ enabled (codes "intent"))
      × IsFast connection
      × IsPrefetchable location link
      × (url ≡ link.address.href)
      × (delay ≡ elim type [ mouseover ↦ 75 | _ ↦ 0 ])
unfolding handle_prefetch_intent
handle_prefetch_intent_sound mode connection location type from_inside link delay url h =
    let on = prefetch_enabled_sound mode connection (ground arith) in
    (
      on.0,
      on.1,
      record {
        no_download = ground arith;
        not_off = ground arith;
        not_external = ground arith;
        not_prefetch_off = ground arith;
        local = eligible_url_sound location link.address (ground arith);
      },
      ground arith,
      ground arith,
    )
