-- ===== src/Subscriptions/Formats/Laws.antt =====
-- Which formats a subscription is rendered in.
use full_revna_like_projekt.Base.{
  String, ◌≡◌, ◌≢◌, refl, sym, subst, inl, inr, ◌↔◌, true, false, ◌||◌, List, [], ◌∷◌, arith, ◌==◌,
  eq_iff, Among, if-cases, TextMap, insert_text,
}
use full_revna_like_projekt.Base.Text.{to_lower_case, trim}
use full_revna_like_projekt.Base.Distinct.{Distinct, insert_text-Distinct, Among-insert_text}
use full_revna_like_projekt.Subscriptions.Formats.{
  add_format, add_formats, or_default, format_values, render_formats,
}

abbrev pub known_formats : List String
known_formats =
    "happ" ∷ "hiddify" ∷ "mihomo" ∷ "sing-box" ∷ "amnezia" ∷ "raw-uri" ∷ "v2ray" ∷ "v2ray-base64"
    ∷ "lumen-json" ∷ []

-- A set of formats that the loop can hold.
abbrev pub Normalized : List String → Type 0
Normalized formats =
    Distinct formats
    × ((f : String) → Among f formats → Among f known_formats)
    × (Among "happ" formats ↔ Among "hiddify" formats)

insert_text-Normalized :
    (formats : List String) (f : String)
    → Normalized formats
    → Among f known_formats
    → f ≢ "happ"
    → f ≢ "hiddify"
    → Normalized (insert_text formats f)
insert_text-Normalized formats f n k a b = (
  insert_text-Distinct formats f n.0,
  λ g m. elim ((Among-insert_text formats f g).0 m) [
    | inl there ↦ n.1 g there
    | inr e ↦ subst (λ x. Among x known_formats) (sym e) k
  ],
  let (to, from) = n.2 in
      let happ = Among-insert_text formats f "happ" in
      let hiddify = Among-insert_text formats f "hiddify" in
      (
        λ m. elim (happ.0 m) [
          | inl there ↦ hiddify.1 (inl (to there))
          | inr e ↦ absurd (a (sym e))
        ],
        λ m. elim (hiddify.0 m) [
          | inl there ↦ happ.1 (inl (from there))
          | inr e ↦ absurd (b (sym e))
        ],
      ),
)

-- `happ` and `hiddify` come together.
insert_both-Normalized :
    (formats : List String)
    → Normalized formats
    → Normalized (insert_text (insert_text formats "happ") "hiddify")
insert_both-Normalized formats n =
    let one = insert_text formats "happ" in
    (
      insert_text-Distinct one "hiddify" (insert_text-Distinct formats "happ" n.0),
      λ g m. elim ((Among-insert_text one "hiddify" g).0 m) [
        | inr e ↦ inr (inl e)
        | inl there ↦ elim ((Among-insert_text formats "happ" g).0 there) [
          | inl before ↦ n.1 g before
          | inr e ↦ inl e
        ]
      ],
      (
        λ m. (Among-insert_text one "hiddify" "hiddify").1 (inr refl),
        λ m.
            (Among-insert_text one "hiddify" "happ").1
              (inl ((Among-insert_text formats "happ" "happ").1 (inr refl))),
      ),
    )

different : (s t : String) → (s == t) ≡ false → s ≢ t
different s t e p = absurd (cc ((eq_iff s t).1 p, e))

insert_plain-Normalized :
    (formats : List String) (f : String)
    → Normalized formats
    → Among f known_formats
    → ((f == "happ") || (f == "hiddify")) ≡ false
    → Normalized (insert_text formats f)
insert_plain-Normalized formats f n k e =
    insert_text-Normalized formats f n k (λ p. absurd (ground (arith, eq_iff f "happ")))
      (λ p. absurd (ground (arith, eq_iff f "hiddify")))

raw_known :
    (v : String)
    → ((v == "raw-uri") || (v == "v2ray") || (v == "v2ray-base64")) ≡ true
    → Among v known_formats
raw_known v e = ground (arith, eq_iff v "raw-uri", eq_iff v "v2ray", eq_iff v "v2ray-base64")

add_format-Normalized :
    (formats : List String) (format : String)
    → Normalized formats
    → Normalized (add_format formats format)
unfolding add_format
add_format-Normalized formats format n =
    let v = to_lower_case (trim format) in
    if-cases Normalized (v == "") _ _ (λ _. n)
      λ _.
        if-cases Normalized ((v == "happ") || (v == "hiddify")) _ _
          (λ _. insert_both-Normalized formats n)
          λ other.
            if-cases Normalized ((v == "clash") || (v == "clash-meta") || (v == "mihomo")) _ _
              (λ _. insert_plain-Normalized formats "mihomo" n (inr (inr (inl refl))) refl)
              λ _.
                if-cases Normalized ((v == "singbox") || (v == "sing-box") || (v == "nekobox")) _ _
                  (λ _.
                    insert_plain-Normalized formats "sing-box" n (inr (inr (inr (inl refl)))) refl)
                  λ _.
                    if-cases Normalized ((v == "amnezia") || (v == "xray-json")) _ _
                      (λ _.
                        insert_plain-Normalized formats "amnezia" n
                          (inr (inr (inr (inr (inl refl))))) refl)
                      λ _.
                        if-cases Normalized
                          ((v == "raw-uri") || (v == "v2ray") || (v == "v2ray-base64")) _ _
                          (λ e. insert_plain-Normalized formats v n (raw_known v e) other) λ _. n

add_formats-Normalized :
    (formats values : List String) → Normalized formats → Normalized (add_formats formats values)
unfolding add_formats
add_formats-Normalized formats [] n = n
add_formats-Normalized formats (v ∷ vs) n =
    add_formats-Normalized (add_format formats v) vs (add_format-Normalized formats v n)

or_default-Normalized :
    (formats : List String)
    → Normalized formats
    → Normalized (or_default formats) × (or_default formats ≢ [])
or_default-Normalized [] n = (
  (
    (λ m. m, tt),
    (λ f m. known f m),
    (ground (arith, eq_iff "happ" "lumen-json", eq_iff "hiddify" "lumen-json")),
  ),
  λ e. cc,
)
  where
    known : (f : String) → Among f ("lumen-json" ∷ []) → Among f known_formats
    known f m = ground arith
or_default-Normalized (f ∷ fs) n = (n, λ e. cc)

-- Whatever its delivery profile says, a subscription is rendered in at least one format, in known
-- formats only, in none twice, and in `happ` exactly if also in `hiddify`.
pub render_formats-Normalized :
    (delivery : TextMap) → Normalized (render_formats delivery) × (render_formats delivery ≢ [])
unfolding render_formats
render_formats-Normalized delivery =
    or_default-Normalized (add_formats [] (format_values delivery))
      (add_formats-Normalized [] (format_values delivery) (tt, (λ f m. absurd m), (λ m. m, λ m. m)))
