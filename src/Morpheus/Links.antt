-- ===== src/Morpheus/Links.antt =====
-- Which clicks and links packages/morpheus/src/morpheus.js takes over: `eligibleClick`, `eligibleLink`,
-- `eligibleURL`, `onlyChangesHash`, `prefetchEnabled` and the guards of `handleClick`,
-- `handlePopState` and `handlePrefetchIntent`. What the browser answers is an argument: a parsed
-- URL, the event's fields, and the link's attributes.
pub mod Takeover
use hacienda.Prelude.{
  ℕ, ◌≡◌, Bool, true, false, not, ◌&&◌, ◌||◌, Option, none, some, List, [], ◌∷◌, Text, codes, ◌===◌,
  includes, ◌==◌, if◌then◌else◌,
}
use hacienda.Morpheus.State.{PrefetchMode, disabled, enabled, Morpheus}

-- The fields of a `URL` object.
pub record Address : Type 0 where
  pub href : Text
  pub origin : Text
  pub protocol : Text
  pub pathname : Text
  pub search : Text
  pub hash : Text

unfoldable pub eligible_url : Address → Address → Bool
eligible_url location url =
    url.origin === location.origin && includes (codes "http:" ∷ codes "https:" ∷ []) url.protocol

abbrev pub is_empty : Text → Bool
is_empty [] = true
is_empty (c ∷ s) = false

unfoldable pub only_changes_hash : Address → Address → Bool
only_changes_hash location url =
    url.pathname === location.pathname
    && (url.search === location.search
        && (not (is_empty url.hash) && not (url.hash === location.hash)))

pub record Click : Type 0 where
  pub button : ℕ
  pub meta_key : Bool
  pub ctrl_key : Bool
  pub shift_key : Bool
  pub alt_key : Bool
  pub default_prevented : Bool

-- The nearest `a[href]` around the node of the event.
pub record Link : Type 0 where
  -- `new URL(link.href, window.location.href)`.
  pub address : Address
  -- `link.target`.
  pub target : Text
  pub has_download : Bool
  -- `link.closest('[data-morpheus="off"]')` finds an element.
  pub switched_off : Bool
  -- `link.relList.contains("external")`.
  pub external : Bool
  -- `link.closest('[data-morpheus-prefetch="off"]')` finds an element.
  pub prefetch_off : Bool

unfoldable pub eligible_click : Click → Link → Bool
eligible_click event link =
    event.button == 0
    && (not event.meta_key
        && (not event.ctrl_key
            && (not event.shift_key
                && (not event.alt_key
                    && (not event.default_prevented
                        && (is_empty link.target || link.target === codes "_self"))))))

-- The argument is what `node.closest("a[href]")` finds.
unfoldable pub eligible_link : Address → Option Link → Option Link
eligible_link location none = none
eligible_link location (some link) =
    if link.has_download
    then none
    else if link.switched_off
    then none
    else if link.external
    then none
    else if eligible_url location link.address
    then some link
    else none

-- What `handleClick` does: leave the click to the browser, or prevent its default action and
-- navigate. `accepted` is what the cancelable event `morpheus:before-navigate` returns.
pub data Response : Type 0 where
  ignore : Response
  take_over : Text → Response

unfoldable pub handle_click : Address → Bool → Click → Option Link → Response
unfolding eligible_link eligible_click
handle_click location accepted event node = elim (eligible_link location node) [
  | none ↦ ignore
  | some link ↦
      if eligible_click event link
      then (if only_changes_hash location link.address
          then ignore
          else if accepted
          then take_over link.address.href
          else ignore)
      else ignore
]

-- `navigator.connection`, where the browser has one.
pub record Connection : Type 0 where
  pub save_data : Bool
  pub effective_type : Text

unfoldable pub prefetch_enabled : PrefetchMode → Option Connection → Bool
prefetch_enabled disabled connection = false
prefetch_enabled (enabled mode) none = mode === codes "intent"
prefetch_enabled (enabled mode) (some connection) =
    mode === codes "intent"
    && (not connection.save_data
        && not (includes (codes "slow-2g" ∷ codes "2g" ∷ []) connection.effective_type))

pub data IntentType : Type 0 where
  mouseover focusin touchstart : IntentType

-- The delay and the URL that `handlePrefetchIntent` hands to the timer. `from_inside` says that the
-- link contains the element that the pointer comes from.
unfoldable pub handle_prefetch_intent :
    PrefetchMode → Option Connection → Address → IntentType → Bool → Option Link → Option (ℕ × Text)
unfolding eligible_link
handle_prefetch_intent mode connection location type from_inside node =
    if prefetch_enabled mode connection
    then elim (eligible_link location node) [
      | none ↦ none
      | some link ↦
          if eligible_url location link.address
          then (if link.prefetch_off then none else elim type [
            | mouseover ↦ if from_inside then none else some (75, link.address.href)
            | _ ↦ some (0, link.address.href)
          ])
          else none
    ]
    else none
