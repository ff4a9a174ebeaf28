-- ===== src/Barcode/Eigp/Envelope.antt =====
-- The envelope of a label: what is written around the fields goes, and nothing of them.
use firebin_api.Base.{
  ℕ, ◌≡◌, refl, ap, ◌∙◌, sym, true, false, [], ◌∷◌, ◌++◌, ◌==◌, arith, none, append_assoc,
  All-append,
}
use firebin_api.Base.Bytes.{Bytes, codes}
use firebin_api.Barcode.Text.{among, trim, trim_left, trim_prefix, trim_end, before_first}
use firebin_api.Barcode.Text.Join.{
  Lacks, before_first-append, ends_outside, starts_outside, trim_end-pad, trim_left-outside,
}
use firebin_api.Barcode.Eigp.{rs, gs, eot, escape_at, replace_from, body_of}

-- The code points that are trimmed from tokens and from the whole.
abbrev pub padding : Bytes
padding = rs ∷ gs ∷ 13 ∷ 10 ∷ 32 ∷ []

-- The envelope of ISO/IEC 15434, format 06.
abbrev pub enveloped : Bytes → Bytes
enveloped text = codes "[)>" ++ rs ∷ codes "06" ++ gs ∷ (text ++ rs ∷ eot ∷ [])

abbrev body_after : Bytes → Bytes
body_after t = trim (rs ∷ gs ∷ []) (
    before_first eot (trim_prefix (codes "06") (trim_left (rs ∷ []) (trim_prefix (codes "[)>") t))))

escape_at-lacks : (c : ℕ) (s : Bytes) → (c == 27) ≡ false → escape_at (c ∷ s) ≡ none
unfolding escape_at
escape_at-lacks c s h = ground arith

replace_from_kept :
    (c : ℕ) (s : Bytes) → escape_at (c ∷ s) ≡ none → replace_from 0 (c ∷ s) ≡ c ∷ replace_from 0 s
unfolding replace_from
replace_from_kept c s h = rw (h, replace_from) refl

replace_from-Lacks : (s : Bytes) → Lacks 27 s → replace_from 0 s ≡ s
unfolding replace_from
replace_from-Lacks [] h = refl
replace_from-Lacks (c ∷ s) h =
    replace_from_kept c s (escape_at-lacks c s h.0) ∙ ap (λ t. c ∷ t) (replace_from-Lacks s h.1)

pub starts_outside-append :
    (set s t : Bytes) → starts_outside set s ≡ true → starts_outside set (s ++ t) ≡ true
starts_outside-append set [] t h = cc
starts_outside-append set (c ∷ s) t h = h

-- The separators around the fields go.
trim-separators :
    (text : Bytes)
    → starts_outside (rs ∷ gs ∷ []) text ≡ true
    → ends_outside (rs ∷ gs ∷ []) text ≡ true
    → trim (rs ∷ gs ∷ []) (gs ∷ text ++ rs ∷ []) ≡ text
unfolding trim trim_left
trim-separators text hs hend =
    ap (trim_end (rs ∷ gs ∷ [])) (
      trim_left-outside (rs ∷ gs ∷ []) (text ++ rs ∷ [])
        (starts_outside-append (rs ∷ gs ∷ []) text (rs ∷ []) hs))
    ∙ trim_end-pad (rs ∷ gs ∷ []) text (rs ∷ []) hend (refl, tt)

header_goes :
    (text : Bytes)
    → trim_prefix (codes "06") (trim_left (rs ∷ []) (trim_prefix (codes "[)>") (enveloped text)))
      ≡ gs ∷ (text ++ rs ∷ eot ∷ [])
unfolding trim_prefix trim_left
header_goes text = refl

trailer_goes :
    (text : Bytes)
    → Lacks eot text
    → before_first eot (gs ∷ (text ++ rs ∷ eot ∷ [])) ≡ gs ∷ (text ++ rs ∷ [])
trailer_goes text h =
    ap (λ t. before_first eot (gs ∷ t)) (sym (append_assoc text (rs ∷ []) (eot ∷ [])))
    ∙ before_first-append eot (gs ∷ (text ++ rs ∷ [])) []
        (refl, All-append (λ d. (d == eot) ≡ false) text (rs ∷ []) h (refl, tt))

enveloped-Lacks : (text : Bytes) → Lacks 27 text → Lacks 27 (enveloped text)
enveloped-Lacks text h =
    All-append (λ d. (d == 27) ≡ false) (codes "[)>" ++ rs ∷ codes "06" ++ gs ∷ [])
      (text ++ rs ∷ eot ∷ []) (refl, (refl, (refl, (refl, (refl, (refl, (refl, tt)))))))
      (All-append (λ d. (d == 27) ≡ false) text (rs ∷ eot ∷ []) h (refl, (refl, tt)))

pub body_of-enveloped :
    (text : Bytes)
    → Lacks eot text
    → Lacks 27 text
    → starts_outside (rs ∷ gs ∷ []) text ≡ true
    → ends_outside (rs ∷ gs ∷ []) text ≡ true
    → body_of (enveloped text) ≡ text
unfolding body_of
body_of-enveloped text he h27 hs hend =
    ap body_after (replace_from-Lacks (enveloped text) (enveloped-Lacks text h27))
    ∙ ap (λ t. trim (rs ∷ gs ∷ []) (before_first eot t)) (header_goes text)
    ∙ ap (trim (rs ∷ gs ∷ [])) (trailer_goes text he)
    ∙ trim-separators text hs hend

-- Subsets of the padding.
pub separators_less : (c : ℕ) → among padding c ≡ false → among (rs ∷ gs ∷ []) c ≡ false
separators_less c h = ground arith

pub token_pad_less : (c : ℕ) → among padding c ≡ false → among (rs ∷ 13 ∷ 10 ∷ 32 ∷ []) c ≡ false
token_pad_less c h = ground arith
