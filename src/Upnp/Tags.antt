-- ===== src/Upnp/Tags.antt =====
-- GetExternalIP of upnp/upnp.go on responses with tags in order and out of order.
use mathlib.Core.List.{append_assoc}
use p2p_tun.Prelude.{
  All, Option, [], ap, arith, drop, drop-append, false, if_false, if_true, length, length-append,
  ltb, none, refl, some, suc, sym, take-append, true, ℕ, ◌&&◌, ◌++◌, ◌+◌, ◌-◌, ◌==◌, ◌∙◌, ◌∷◌, ◌≡◌,
  ◌≢◌,
}
use p2p_tun.Text.{Text, has_prefix, text, trim_space}
use p2p_tun.Upnp.{close_tag, external_ip, index, one_later, open_tag, panics, parsed}

abbrev pub NoTag : Text → Type 0
NoTag = All (λ c. c ≢ b'<')

abbrev shift : ℕ → Option ℕ → Option ℕ
shift n none = none
shift n (some i) = some (n + i)

one_later-shift : (n : ℕ) (o : Option ℕ) → one_later (shift n o) ≡ shift (suc n) o
one_later-shift n none = refl
one_later-shift n (some i) = ap some (omega arith)

shift_zero : (o : Option ℕ) → shift 0 o ≡ o
shift_zero none = refl
shift_zero (some i) = ap some (omega arith)

-- Text without tags before a tag only moves it.
index-skip :
    (s t p : Text) → NoTag s → index (s ++ t) (b'<' ∷ p) ≡ shift (length s) (index t (b'<' ∷ p))
unfolding index has_prefix
index-skip [] t p w = sym (shift_zero (index t (b'<' ∷ p)))
index-skip (c ∷ s) t p w =
    if_false (c == b'<' && has_prefix (s ++ t) p) _ _ (ground (arith, w.0))
    ∙ ap one_later (index-skip s t p w.1)
    ∙ one_later-shift (length s) (index t (b'<' ∷ p))

has_prefix-append : (p t : Text) → has_prefix (p ++ t) p ≡ true
unfolding has_prefix
has_prefix-append [] [] = refl
has_prefix-append [] (c ∷ t) = refl
has_prefix-append (c ∷ p) t = ground (arith, has_prefix-append p t)

index-here : (c : ℕ) (p t : Text) → index ((c ∷ p) ++ t) (c ∷ p) ≡ some 0
unfolding index
index-here c p t = if_true _ _ _ (has_prefix-append (c ∷ p) t)

-- Neither tag is found inside the other.
index_close-open : (t : Text) → index (open_tag ++ t) close_tag ≡ shift 22 (index t close_tag)
unfolding index has_prefix
index_close-open t =
    ap one_later
      (index-skip (text "NewExternalIPAddress>") t (text "/NewExternalIPAddress>") (ground arith))
    ∙ one_later-shift 21 (index t close_tag)

index_open-close : (t : Text) → index (close_tag ++ t) open_tag ≡ shift 23 (index t open_tag)
unfolding index has_prefix
index_open-close t =
    ap one_later
      (index-skip (text "/NewExternalIPAddress>") t (text "NewExternalIPAddress>") (ground arith))
    ∙ one_later-shift 22 (index t open_tag)

index_open : (t : Text) → index (open_tag ++ t) open_tag ≡ some 0
index_open t = index-here b'<' (text "NewExternalIPAddress>") t

index_close : (t : Text) → index (close_tag ++ t) close_tag ≡ some 0
index_close t = index-here b'<' (text "/NewExternalIPAddress>") t

module _ (parse_ip : Text → Option Text) (before : Text) (clean : NoTag before) where
  -- A response with the address between its tags, with nothing that looks like a tag before or
  -- between them, gives the address that net.ParseIP reads there without the blanks around it, and
  -- an error if net.ParseIP reads none; what follows the tags makes no difference.
  pub external_ip_between :
      (ip after : Text)
      → NoTag ip
      → external_ip parse_ip (before ++ (open_tag ++ (ip ++ (close_tag ++ after))))
        ≡ parsed (parse_ip (trim_space ip))
  unfolding external_ip
  external_ip_between ip after w =
      let s : Text = before ++ (open_tag ++ (ip ++ (close_tag ++ after))) in
      let first : index s open_tag ≡ some (length before + 0) =
        index-skip before (open_tag ++ (ip ++ (close_tag ++ after))) _ clean
        ∙ ap (shift (length before)) (index_open (ip ++ (close_tag ++ after))) in
      let last : index s close_tag ≡ some (length before + (22 + (length ip + 0))) =
        index-skip before (open_tag ++ (ip ++ (close_tag ++ after))) _ clean
        ∙ ap (shift (length before)) (
            index_close-open (ip ++ (close_tag ++ after))
            ∙ ap (shift 22) (
                index-skip ip (close_tag ++ after) _ w
                ∙ ap (shift (length ip)) (index_close after))) in
      let there : length before + 0 + 22 ≡ length (before ++ open_tag) =
        omega (arith, length-append before open_tag) in
      let size : length before + (22 + (length ip + 0)) - (length before + 0 + 22) ≡ length ip =
        omega arith in
      let in_order : ltb (length before + (22 + (length ip + 0))) (length before + 0 + 22) ≡ false =
        ground arith in
      let rest : drop (length before + 0 + 22) s ≡ ip ++ (close_tag ++ after) = rw there (
        ap (drop (length (before ++ open_tag)))
          (sym (append_assoc before open_tag (ip ++ (close_tag ++ after))))
        ∙ drop-append (before ++ open_tag) (ip ++ (close_tag ++ after))) in
      rw (first, last)
        (if_false (ltb (length before + (22 + (length ip + 0))) (length before + 0 + 22)) _ _
            in_order
          ∙ rw (size, rest) (rw (take-append ip (close_tag ++ after)) refl))

  -- A response whose closing tag comes before its opening tag makes GetExternalIP panic.
  pub external_ip_panics :
      (mid after : Text)
      → NoTag mid
      → external_ip parse_ip (before ++ (close_tag ++ (mid ++ (open_tag ++ after)))) ≡ panics
  unfolding external_ip
  external_ip_panics mid after w =
      let s : Text = before ++ (close_tag ++ (mid ++ (open_tag ++ after))) in
      let last : index s close_tag ≡ some (length before + 0) =
        index-skip before (close_tag ++ (mid ++ (open_tag ++ after))) _ clean
        ∙ ap (shift (length before)) (index_close (mid ++ (open_tag ++ after))) in
      let first : index s open_tag ≡ some (length before + (23 + (length mid + 0))) =
        index-skip before (close_tag ++ (mid ++ (open_tag ++ after))) _ clean
        ∙ ap (shift (length before)) (
            index_open-close (mid ++ (open_tag ++ after))
            ∙ ap (shift 23) (
                index-skip mid (open_tag ++ after) _ w
                ∙ ap (shift (length mid)) (index_open after))) in
      rw (first, last) (ground arith)
