-- ===== src/Keepalive/Changes.antt =====
-- What the log of keepalive/keepalive.go says of the public address.
use p2p_tun.Prelude.{
  All, Bool-cases, List, [], ap, false, if◌then◌else◌, inl, inr, none, refl, some, ◌++◌, ◌∙◌, ◌∷◌,
  ◌≡◌,
}
use p2p_tun.Keepalive.{Event, Note, changed, keepalive, stop, stopped, tick}
use p2p_tun.Text.{Text, is_empty, text_eq, text_eq_iff}

-- The addresses that are seen before the stop.
abbrev pub seen : List Event → List Text
seen [] = []
seen (stop ∷ es) = []
seen (tick none ∷ es) = seen es
seen (tick (some addr) ∷ es) = addr ∷ seen es

-- The changes of a sequence of addresses.
abbrev pub changes : Text → List Text → List Note
changes last [] = []
changes last (addr ∷ addrs) =
    if text_eq addr last then changes last addrs else changed last addr ∷ changes addr addrs

abbrev pub has_stop : List Event → List Note
has_stop [] = []
has_stop (stop ∷ es) = stopped ∷ []
has_stop (tick o ∷ es) = has_stop es

changes_from :
    (last : Text) (es : List Event)
    → is_empty last ≡ false
    → All (λ a. is_empty a ≡ false) (seen es)
    → keepalive last es ≡ changes last (seen es) ++ has_stop es
unfolding keepalive
changes_from last [] e w = refl
changes_from last (stop ∷ es) e w = refl
changes_from last (tick none ∷ es) e w = changes_from last es e w
changes_from last (tick (some addr) ∷ es) e w = elim (Bool-cases (text_eq addr last)) [
  | inl c ↦
      rw (e, c)
        (ap (λ (a : Text). keepalive a es) ((text_eq_iff addr last).0 c)
          ∙ changes_from last es e w.1)
  | inr c ↦ rw (e, c) (ap (◌∷◌ (changed last addr)) (changes_from addr es w.0 w.1))
]

-- After the first answer, the log tells exactly the changes of the address from one answer to the
-- next, in order and with both addresses, and the stop if there is one; requests that fail in
-- between make no difference, and nothing is logged after the stop.
pub keepalive-changes :
    (first : Text) (es : List Event)
    → is_empty first ≡ false
    → All (λ a. is_empty a ≡ false) (seen es)
    → keepalive [] (tick (some first) ∷ es) ≡ changes first (seen es) ++ has_stop es
unfolding keepalive
keepalive-changes first es e w = changes_from first es e w
