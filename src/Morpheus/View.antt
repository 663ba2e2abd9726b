-- ===== src/Morpheus/View.antt =====
-- What packages/morpheus/src/morpheus.js does to the page that it has shown: `anchorFor`,
-- `restoreScroll`, `manageFocus` and the test of `updateActiveLinks`. The document's queries are
-- arguments.
use hacienda.Prelude.{
  ℕ, Bool, true, false, not, ◌&&◌, ◌||◌, Option, none, some, List, [], ◌∷◌, ◌++◌, Text, codes,
  ◌===◌, starts_with, drop, ◌==◌, if◌then◌else◌,
}
use hacienda.Morpheus.Fetch.{text_or}
pub mod ActiveLinks

-- The queries of the current document that a navigation makes.
pub record Dom {ℓ} (N : Type ℓ) : Type ℓ where
  -- `document.querySelector`.
  pub find : Text → Option N
  -- `document.getElementById`.
  pub by_id : Text → Option N
  -- `decodeURIComponent`; `none` if it throws.
  pub decode : Text → Option Text
  -- `new URL(url, window.location.href).hash`.
  pub hash_of : Text → Text
  pub has_tab_index : N → Bool
  -- `target.matches("a,button,input,select,textarea")`.
  pub is_control : N → Bool

pub data HistoryMode : Type 0 where
  push pop other : HistoryMode

pub record NavigateOptions : Type 0 where
  pub history_mode : HistoryMode
  pub navigation_type : Text
  -- `scroll.x || 0` and `scroll.y || 0` of the history entry, if it has them.
  pub scroll : Option (ℕ × ℕ)

pub data Scroll {ℓ} (N : Type ℓ) : Type ℓ where
  to_position : ℕ → ℕ → Scroll N
  into_view : N → Scroll N

module _ {ℓ} {N : Type ℓ} where
  unfoldable pub anchor_for : Dom N → Text → Option N
  anchor_for dom [] = none
  anchor_for dom (c ∷ hash) = elim (dom.decode hash) [ none ↦ none | some id ↦ dom.by_id id ]

  unfoldable pub scroll_to_anchor : Dom N → Text → Scroll N
  unfolding anchor_for
  scroll_to_anchor dom url = elim (anchor_for dom (dom.hash_of url)) [
    | some anchor ↦ into_view anchor
    | none ↦ to_position 0 0
  ]

  unfoldable pub restore_scroll : Dom N → Text → NavigateOptions → Scroll N
  unfolding scroll_to_anchor
  restore_scroll dom url options = elim options.history_mode [
    | pop ↦ elim options.scroll [ some (x, y) ↦ to_position x y | none ↦ scroll_to_anchor dom url ]
    | _ ↦ scroll_to_anchor dom url
  ]

  abbrev pub or_else : Option N → Option N → Option N
  or_else none b = b
  or_else (some a) b = some a

  unfoldable pub focus_target : Dom N → Text → Text → Option N
  unfolding anchor_for
  focus_target dom selector url =
      or_else (anchor_for dom (dom.hash_of url))
        (or_else (dom.find (selector ++ codes " [autofocus]")) (dom.find selector))

  -- The node that is focused, and whether it is given a `tabindex` until it loses the focus.
  unfoldable pub manage_focus : Dom N → Text → Text → Text → Option (N × Bool)
  unfolding focus_target
  manage_focus dom selector url navigation_type =
      if navigation_type === codes "popstate" then none else elim (focus_target dom selector url) [
        | none ↦ none
        | some target ↦ some (target, not (dom.has_tab_index target) && not (dom.is_control target))
      ]

-- `prefix.replace(/\/$/, "")`.
unfoldable pub strip_slash : Text → Text
strip_slash [] = []
strip_slash (c ∷ []) = if c == b'/' then [] else c ∷ []
strip_slash (c ∷ d ∷ s) = c ∷ strip_slash (d ∷ s)

-- Whether a link with the attribute `data-morpheus-active-prefix` is marked as the current page.
unfoldable pub is_active : Text → Option Text → Bool
unfolding text_or strip_slash
is_active path attribute =
    let prefix = text_or attribute (codes "/") in
    if prefix === codes "/"
    then path === codes "/"
    else path === prefix || starts_with (strip_slash prefix ++ codes "/") path
