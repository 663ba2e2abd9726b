-- ===== src/Morpheus/Listening/Stopped.antt =====
-- What `stop` of packages/morpheus/src/morpheus.js leaves behind.
use hacienda.Prelude.{
  ◌≡◌, refl, ap, sym, ◌∙◌, false, ◌||◌, List, [], ◌∷◌, ◌++◌, append_assoc, append-nil, ◌===◌, arith,
}
use hacienda.Morpheus.Listening.{
  Listener, is_listening, add_listener, remove_listener, add_listeners, remove_listeners,
  own_listeners, Listening, start_listening, stop_listening,
}

-- None of the first stands among the second, and none of the first twice.
abbrev pub Absent : List Listener → List Listener → Type 0
Absent [] ls = Unit
Absent (m ∷ ms) ls = (is_listening m ls ≡ false) × Absent ms ls

abbrev Distinct : List Listener → Type 0
Distinct [] = Unit
Distinct (m ∷ ms) = Absent ms (m ∷ []) × Distinct ms

is_listening-append :
    (l : Listener) (ls ms : List Listener)
    → is_listening l (ls ++ ms) ≡ (is_listening l ls || is_listening l ms)
unfolding is_listening
is_listening-append l [] ms = refl
is_listening-append l (k ∷ ls) ms = ground (arith, is_listening-append l ls ms)

Absent-append : (ms ls ks : List Listener) → Absent ms ls → Absent ms ks → Absent ms (ls ++ ks)
Absent-append [] ls ks a b = tt
Absent-append (m ∷ ms) ls ks (a, as') (b, bs) =
    (is_listening-append m ls ks ∙ rw (a, b) refl, Absent-append ms ls ks as' bs)

add_listeners-Absent :
    (ms ls : List Listener) → Absent ms ls → Distinct ms → add_listeners ms ls ≡ ls ++ ms
unfolding add_listeners add_listener
add_listeners-Absent [] ls a d = sym (append-nil ls)
add_listeners-Absent (m ∷ ms) ls (a, rest) (d, ds) = rw a (
    add_listeners-Absent ms (ls ++ m ∷ []) (Absent-append ms ls (m ∷ []) rest d) ds
    ∙ append_assoc ls (m ∷ []) ms)

remove_listener-absent :
    (l : Listener) (ls : List Listener) → is_listening l ls ≡ false → remove_listener l ls ≡ ls
unfolding is_listening
remove_listener-absent l [] h = refl
remove_listener-absent l (k ∷ ls) h = ground (arith, remove_listener-absent l ls)

remove_listener-append :
    (l : Listener) (ls ms : List Listener)
    → remove_listener l (ls ++ ms) ≡ remove_listener l ls ++ remove_listener l ms
remove_listener-append l [] ms = refl
remove_listener-append l (k ∷ ls) ms = ground (arith, remove_listener-append l ls ms)

remove_listeners-append :
    (ks ls ms : List Listener)
    → Absent ks ls
    → remove_listeners ks (ls ++ ms) ≡ ls ++ remove_listeners ks ms
unfolding remove_listeners
remove_listeners-append [] ls ms a = refl
remove_listeners-append (k ∷ ks) ls ms (a, rest) =
    ap (remove_listeners ks)
      (remove_listener-append k ls ms ∙ rw (remove_listener-absent k ls a) refl)
    ∙ remove_listeners-append ks ls (remove_listener k ms) rest

Distinct-own_listeners : Distinct own_listeners
unfolding is_listening ◌===◌
Distinct-own_listeners = (
  (refl, (refl, (refl, (refl, (refl, tt))))),
  (
    (refl, (refl, (refl, (refl, tt)))),
    ((refl, (refl, (refl, tt))), ((refl, (refl, tt)), ((refl, tt), (tt, tt)))),
  ),
)

no_own : remove_listeners own_listeners own_listeners ≡ []
unfolding remove_listeners ◌===◌
no_own = refl

-- An object that is not started, and has no listener on the page, has each of its six after `start`,
-- once, behind those of others; a second `start` does nothing. `stop` takes all of them away, and the
-- page has the listeners that it had before.
pub stop-start :
    (s : Listening)
    → s.started ≡ false
    → Absent own_listeners s.listeners
    → ((start_listening s).listeners ≡ s.listeners ++ own_listeners)
      × (start_listening (start_listening s) ≡ start_listening s)
      × ((stop_listening (start_listening s)).listeners ≡ s.listeners)
      × ((stop_listening (start_listening s)).started ≡ false)
unfolding start_listening stop_listening
stop-start s h a =
    let added = add_listeners-Absent own_listeners s.listeners a Distinct-own_listeners in
    (
      rw h added,
      rw h refl,
      rw h (
          ap (remove_listeners own_listeners) added
          ∙ remove_listeners-append own_listeners s.listeners own_listeners a
          ∙ ap (λ ls. s.listeners ++ ls) no_own
          ∙ append-nil s.listeners),
      rw h refl,
    )
