-- ===== src/Barcode/Eigp/RoundTrip.antt =====
-- A label that is written from fields reads back.
use firebin_api.Base.{
  ℕ, ◌≡◌, refl, ap, ◌∙◌, sym, Bool, true, false, not, [], ◌∷◌, ◌++◌, map, if◌then◌else◌, All, arith,
  none, some, append-nil, subst,
}
use firebin_api.Base.Bytes.{Bytes, codes, same, is_empty}
use firebin_api.Barcode.Text.{among, split, trim, trim_end}
use firebin_api.Barcode.Text.Join.{
  Lacks, join_to, split-join_to, Lacks-join_to, ends_outside, starts_outside, ends_outside-join_to,
  starts_outside-join_to, trim_end-pad, trim_left-outside,
}
use firebin_api.Barcode.Label.{Parsed, no_fields, Fields, put, get}
use firebin_api.Barcode.Label.Lookup.{last_value, get-put}
use firebin_api.Barcode.Eigp.{
  rs, gs, eot, split_di, set_field, add_field, add_token, add_tokens, body_of, with_distributor,
  parse,
}
use firebin_api.Barcode.Eigp.Envelope.{padding, body_of-enveloped, separators_less, token_pad_less}

abbrev pub token_of : Bytes × Bytes → Bytes
token_of f = f.0 ++ f.1

-- A field that a label can carry: its identifier is the one that is found, and its text has no
-- separator, end of transmission or escape, and no padding at either end.
pub record IsField (f : Bytes × Bytes) : Type 0 where
  pub found : split_di (token_of f) ≡ f
  pub known : is_empty (f.0) ≡ false
  pub no_gs : Lacks gs (token_of f)
  pub no_eot : Lacks eot (token_of f)
  pub no_escape : Lacks 27 (token_of f)
  pub starts : starts_outside padding (token_of f) ≡ true
  pub ends : ends_outside padding (token_of f) ≡ true

abbrev pub render : Bytes × Bytes → Fields → Bytes
render f fs =
    codes "[)>"
    ++ rs ∷ codes "06"
    ++ gs ∷ join_to gs (token_of f) (map token_of fs)
    ++ rs ∷ eot ∷ []

not-true : (b : Bool) → not b ≡ true → b ≡ false
not-true true h = cc
not-true false h = refl

starts_less :
    (set t : Bytes)
    → ((c : ℕ) → among padding c ≡ false → among set c ≡ false)
    → starts_outside padding t ≡ true
    → starts_outside set t ≡ true
starts_less set [] k h = cc
starts_less set (c ∷ t) k h = ap not (k c (not-true (among padding c) h))

ends_less :
    (set t : Bytes)
    → ((c : ℕ) → among padding c ≡ false → among set c ≡ false)
    → ends_outside padding t ≡ true
    → ends_outside set t ≡ true
ends_less set [] k h = cc
ends_less set (c ∷ []) k h = ap not (k c (not-true (among padding c) h))
ends_less set (c ∷ d ∷ t) k h = ends_less set (d ∷ t) k h

trim-outside :
    (set t : Bytes) → starts_outside set t ≡ true → ends_outside set t ≡ true → trim set t ≡ t
unfolding trim
trim-outside set t hs he =
    ap (trim_end set) (trim_left-outside set t hs)
    ∙ sym (ap (trim_end set) (append-nil t))
    ∙ trim_end-pad set t [] he tt

-- The fields in order, as Parse adds them.
unfoldable pub add_fields : Fields → Parsed → Parsed
unfolding add_field
add_fields [] p = p
add_fields (f ∷ fs) p = add_fields fs (add_field (f.0) (f.1) p)

add_token_known :
    (raw : Bytes) (p : Parsed) (f : Bytes × Bytes)
    → trim (rs ∷ 13 ∷ 10 ∷ 32 ∷ []) raw ≡ raw
    → is_empty raw ≡ false
    → split_di raw ≡ f
    → is_empty (f.0) ≡ false
    → add_token raw p ≡ add_field (f.0) (f.1) p
unfolding add_token
add_token_known raw p f a b c d = rw (a, b, c, d) refl

starts_full : (set t : Bytes) → starts_outside set t ≡ true → is_empty t ≡ false
starts_full set [] h = cc
starts_full set (c ∷ t) h = refl

add_token-token_of :
    (f : Bytes × Bytes) (p : Parsed)
    → IsField f
    → add_token (token_of f) p ≡ add_field (f.0) (f.1) p
unfolding add_token
add_token-token_of f p h =
    let pad = rs ∷ 13 ∷ 10 ∷ 32 ∷ [] in
    let t = token_of f in
    add_token_known t p f
      (trim-outside pad t (starts_less pad t token_pad_less h.starts)
        (ends_less pad t token_pad_less h.ends))
      (starts_full padding t h.starts) h.found h.known

add_tokens-map :
    (fs : Fields) (p : Parsed) → All IsField fs → add_tokens (map token_of fs) p ≡ add_fields fs p
unfolding add_tokens add_fields
add_tokens-map [] p h = refl
add_tokens-map (f ∷ fs) p h =
    ap (add_tokens (map token_of fs)) (add_token-token_of f p h.0)
    ∙ add_tokens-map fs (add_field (f.0) (f.1) p) h.1

set_field-fields : (di v : Bytes) (p : Parsed) → (set_field di v p).fields ≡ p.fields
unfolding set_field
set_field-fields di v p = ground arith

get-add_field :
    (k di v : Bytes) (p : Parsed)
    → get k (add_field di v p).fields ≡ (if same di k then some v else get k p.fields)
unfolding add_field
get-add_field k di v p =
    ap (get k) (set_field-fields di v (record p { fields = put di v p.fields }))
    ∙ get-put k di v p.fields

get-add_fields :
    (k : Bytes) (fs : Fields) (p : Parsed)
    → get k (add_fields fs p).fields ≡ last_value k fs (get k p.fields)
unfolding add_fields
get-add_fields k [] p = refl
get-add_fields k (f ∷ fs) p =
    get-add_fields k fs (add_field (f.0) (f.1) p)
    ∙ ap (last_value k fs) (get-add_field k (f.0) (f.1) p)

mpn-set_field :
    (di v : Bytes) (p : Parsed)
    → some (set_field di v p).mpn ≡ (if same di (codes "1P") then some v else some p.mpn)
unfolding set_field
mpn-set_field di v p = ground arith

mpn-add_field :
    (di v : Bytes) (p : Parsed)
    → some (add_field di v p).mpn ≡ (if same di (codes "1P") then some v else some p.mpn)
unfolding add_field
mpn-add_field di v p = mpn-set_field di v (record p { fields = put di v p.fields })

mpn-add_fields :
    (fs : Fields) (p : Parsed)
    → some (add_fields fs p).mpn ≡ last_value (codes "1P") fs (some p.mpn)
unfolding add_fields
mpn-add_fields [] p = refl
mpn-add_fields (f ∷ fs) p =
    mpn-add_fields fs (add_field (f.0) (f.1) p)
    ∙ ap (last_value (codes "1P") fs) (mpn-add_field (f.0) (f.1) p)

All-tokens :
    (P : Bytes → Type 0) (fs : Fields)
    → ((f : Bytes × Bytes) → IsField f → P (token_of f))
    → All IsField fs
    → All P (map token_of fs)
All-tokens P [] k h = tt
All-tokens P (f ∷ fs) k h = (k f h.0, All-tokens P fs k h.1)

-- The text between the separators is split into the tokens.
body-render :
    (f : Bytes × Bytes) (fs : Fields)
    → IsField f
    → All IsField fs
    → body_of (render f fs) ≡ join_to gs (token_of f) (map token_of fs)
body-render f fs h hs =
    let set = rs ∷ gs ∷ [] in
    let tokens = map token_of fs in
    body_of-enveloped (join_to gs (token_of f) tokens)
      (Lacks-join_to eot gs (token_of f) tokens refl h.no_eot
        (All-tokens (Lacks eot) fs (λ g k. k.no_eot) hs))
      (Lacks-join_to 27 gs (token_of f) tokens refl h.no_escape
        (All-tokens (Lacks 27) fs (λ g k. k.no_escape) hs))
      (starts_outside-join_to set gs (token_of f) tokens
        (starts_less set (token_of f) separators_less h.starts))
      (ends_outside-join_to set gs (token_of f) tokens
        (ends_less set (token_of f) separators_less h.ends)
        (All-tokens (λ u. ends_outside set u ≡ true) fs
          (λ g k. ends_less set (token_of g) separators_less k.ends) hs))

parse-render :
    (f : Bytes × Bytes) (fs : Fields)
    → IsField f
    → All IsField fs
    → parse (render f fs) ≡ with_distributor (add_fields (f ∷ fs) no_fields)
unfolding parse
parse-render f fs h hs =
    ap (λ t. with_distributor (add_tokens (split gs t) no_fields)) (body-render f fs h hs)
    ∙ ap (λ ts. with_distributor (add_tokens ts no_fields))
        (split-join_to gs (token_of f) (map token_of fs) h.no_gs
          (All-tokens (Lacks gs) fs (λ g k. k.no_gs) hs))
    ∙ ap with_distributor (add_tokens-map (f ∷ fs) no_fields (h, hs))

-- What a label says: the last value of each identifier, that of 1P as the MPN.
pub record Says (fs : Fields) (p : Parsed) : Type 0 where
  pub fields_of : (k : Bytes) → get k p.fields ≡ last_value k fs none
  pub mpn_of : some p.mpn ≡ last_value (codes "1P") fs (some [])

-- A label in the envelope of format 06 reads back, if of each field the identifier is a known one and
-- the one that is found in the field's text, and that text has no group separator, end of transmission
-- or escape in it, and at its ends no blank, line break or separator: each identifier has the last value
-- that the label gives it, and the MPN is that of 1P.
pub parse-render-Says :
    (f : Bytes × Bytes) (fs : Fields)
    → IsField f
    → All IsField fs
    → Says (f ∷ fs) (parse (render f fs))
unfolding with_distributor add_fields get
parse-render-Says f fs h hs = subst (Says (f ∷ fs)) (sym (parse-render f fs h hs)) record {
  fields_of = λ k. get-add_fields k (f ∷ fs) no_fields;
  mpn_of = mpn-add_fields (f ∷ fs) no_fields;
}
