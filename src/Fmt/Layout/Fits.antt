-- ===== src/Fmt/Layout/Fits.antt =====
-- `fits` decides exactly whether the one-line layout is possible.
use nslc.Fmt.Doc.{Doc, Docs, null, text, line, nest, group, concat, align, comment, nil, cons}
use nslc.Fmt.Layout.Flat.{flat_text, flat_texts, has_hardline, have_hardline}
use nslc.Fmt.Layout.Render.{
  is_null, add_width, flat_width, flat_widths, fits, emit_line, render_into, render_items,
}
use nslc.Prelude.{
  ℕ, ◌+◌, ◌≤◌, ◌<◌, ◌≡◌, refl, ap, ◌∙◌, Bool, true, false, ◌||◌, Option, none, some, length,
  length-append, arith, Bool-cases, Option-cases, inl, inr, ◌⊎◌, ◌↔◌,
}

or-left : (a b : Bool) → (a || b) ≡ false → a ≡ false
or-left a b h = ground arith

or-right : (a b : Bool) → (a || b) ≡ false → b ≡ false
or-right a b h = ground arith

widths_cons :
    (d : Doc) (ds : Docs) (used limit total w : ℕ)
    → flat_widths (cons d ds) used limit total ≡ some w
    → (t : ℕ) × (add_width (is_null d) used limit total (flat_width d (used + total) limit)
        ≡ some t)
      × (flat_widths ds used limit t ≡ some w)
unfolding flat_widths
widths_cons d ds used limit total w h = ground arith

-- An item that is taken: a null one adds nothing, any other its width.
add_width_inv :
    (d : Doc) (used limit total : ℕ) (fw : Option ℕ) (t : ℕ)
    → add_width (is_null d) used limit total fw ≡ some t
    → ((t ≡ total) × (d ≡ null)) ⊎ ((v : ℕ) × (fw ≡ some v) × (t ≡ total + v))
unfolding add_width is_null
add_width_inv null used limit total fw t h = inl (ground arith, refl)
add_width_inv d used limit total none t h = ground arith
add_width_inv d used limit total (some v) t h = inr (v, refl, ground arith)

cons_case :
    (d : Doc) (ds : Docs) (total w t : ℕ) {fw : Option ℕ}
    → ((t ≡ total) × (d ≡ null)) ⊎ ((v : ℕ) × (fw ≡ some v) × (t ≡ total + v))
    → ((v : ℕ) → fw ≡ some v → (v ≡ length (flat_text d)) × (has_hardline d ≡ false))
    → (w ≡ t + length (flat_texts ds)) × (have_hardline ds ≡ false)
    → (w ≡ total + length (flat_texts (cons d ds))) × (have_hardline (cons d ds) ≡ false)
unfolding flat_text has_hardline
cons_case d ds total w t (inl (e, z)) first (p, q) = rw z (omega arith, q)
cons_case d ds total w t (inr (v, f, e)) first (p, q) =
    let (a, b) = first v f in (omega (arith, length-append (flat_text d) (flat_texts ds)), rw b q)

-- A width that is found is the length of the one-line layout, and no line break is forced.
mutual
  unfolding flat_width flat_text has_hardline add_width is_null

  flat_width-flat_text :
      (d : Doc) (used limit w : ℕ)
      → flat_width d used limit ≡ some w
      → (w ≡ length (flat_text d)) × (has_hardline d ≡ false)
  flat_width-flat_text null used limit w h = ground arith
  flat_width-flat_text (text s) used limit w h = ground arith
  flat_width-flat_text (line hard) used limit w h = ground arith
  flat_width-flat_text (nest n d) used limit w h = flat_width-flat_text d used limit w h
  flat_width-flat_text (group d) used limit w h = flat_width-flat_text d used limit w h
  flat_width-flat_text (concat ds) used limit w h =
      let (e, k) = flat_widths-flat_texts ds used limit 0 w h in (omega arith, k)
  flat_width-flat_text (align d) used limit w h = flat_width-flat_text d used limit w h
  flat_width-flat_text (comment s l t) used limit w h = ground arith

  flat_widths-flat_texts :
      (ds : Docs) (used limit total w : ℕ)
      → flat_widths ds used limit total ≡ some w
      → (w ≡ total + length (flat_texts ds)) × (have_hardline ds ≡ false)
  flat_widths-flat_texts nil used limit total w h = ground arith
  flat_widths-flat_texts (cons d ds) used limit total w h =
      let (t, a, b) = widths_cons d ds used limit total w h in
      cons_case d ds total w t (add_width_inv d used limit total _ t a)
        (λ v e. flat_width-flat_text d (used + total) limit v e)
        (flat_widths-flat_texts ds used limit t w b)

add_width-fits :
    (d : Doc) (used limit total v : ℕ)
    → v ≡ length (flat_text d)
    → used + total + v ≤ limit
    → add_width (is_null d) used limit total (some v) ≡ some (total + v)
unfolding add_width is_null flat_text
add_width-fits null used limit total v e h = ground arith
add_width-fits d used limit total v e h = ground arith

widths_step :
    (d : Doc) (ds : Docs) (used limit total v : ℕ)
    → flat_width d (used + total) limit ≡ some v
    → v ≡ length (flat_text d)
    → used + total + v ≤ limit
    → flat_widths (cons d ds) used limit total ≡ flat_widths ds used limit (total + v)
unfolding flat_widths
widths_step d ds used limit total v e l h = ground (arith, add_width-fits d used limit total v l h)

-- Where no break is forced and the one-line layout is within the limit, its width is found.
mutual
  unfolding flat_width flat_text has_hardline

  flat_width-some :
      (d : Doc) (used limit : ℕ)
      → has_hardline d ≡ false
      → used + length (flat_text d) ≤ limit
      → flat_width d used limit ≡ some (length (flat_text d))
  flat_width-some null used limit h l = refl
  flat_width-some (text s) used limit h l = refl
  flat_width-some (line hard) used limit h l = ground arith
  flat_width-some (nest n d) used limit h l = flat_width-some d used limit h l
  flat_width-some (group d) used limit h l = flat_width-some d used limit h l
  flat_width-some (concat ds) used limit h l =
      flat_widths-some ds used limit 0 h (omega arith) ∙ ap some (omega arith)
  flat_width-some (align d) used limit h l = flat_width-some d used limit h l
  flat_width-some (comment s lead trail) used limit h l = refl

  flat_widths-some :
      (ds : Docs) (used limit total : ℕ)
      → have_hardline ds ≡ false
      → used + total + length (flat_texts ds) ≤ limit
      → flat_widths ds used limit total ≡ some (total + length (flat_texts ds))
  flat_widths-some nil used limit total h l = ap some (omega arith)
  flat_widths-some (cons d ds) used limit total h l =
      let both = length-append (flat_text d) (flat_texts ds) in
      widths_step d ds used limit total (length (flat_text d))
        (flat_width-some d (used + total) limit (or-left _ _ h) (omega (arith, both))) refl
        (omega (arith, both))
      ∙ flat_widths-some ds used limit (total + length (flat_text d)) (or-right _ _ h)
          (omega (arith, both))
      ∙ ap some (omega (arith, both))

fits→one_line :
    (d : Doc) (used limit : ℕ)
    → fits d used limit ≡ true
    → (has_hardline d ≡ false) × (used + length (flat_text d) ≤ limit)
unfolding fits
fits→one_line d used limit h = elim (Option-cases (flat_width d used limit)) [
  | inl e ↦ absurd (ground arith)
  | inr (w, e) ↦ let (len, soft) = flat_width-flat_text d used limit w e in (soft, ground arith)
]

one_line→fits :
    (d : Doc) (used limit : ℕ)
    → has_hardline d ≡ false
    → used + length (flat_text d) ≤ limit
    → fits d used limit ≡ true
unfolding fits
one_line→fits d used limit h l = rw (flat_width-some d used limit h l, fits) (ground arith)

not-fits :
    (d : Doc) (used limit : ℕ)
    → (has_hardline d ≡ true) ⊎ (limit < used + length (flat_text d))
    → fits d used limit ≡ false
not-fits d used limit n = elim (Bool-cases (fits d used limit)) [
  | inl e ↦ let (h, l) = fits→one_line d used limit e in ground arith
  | inr e ↦ e
]

-- `fits` holds exactly where no line break is forced and the one-line layout ends within the limit.
pub fits_iff :
    (d : Doc) (used limit : ℕ)
    → (fits d used limit ≡ true)
      ↔ ((has_hardline d ≡ false) × (used + length (flat_text d) ≤ limit))
fits_iff d used limit = (fits→one_line d used limit, λ (h, l). one_line→fits d used limit h l)

items_cons :
    (d : Doc) (ds : Docs) (limit : ℕ) (tabs : Bool) (indent column : ℕ)
    → render_into d limit tabs indent column true ≡ (flat_text d, column + length (flat_text d))
    → (let at = column + length (flat_text d) in
        render_items ds limit tabs indent at true ≡ (flat_texts ds, at + length (flat_texts ds)))
    → render_items (cons d ds) limit tabs indent column true
      ≡ (flat_texts (cons d ds), column + length (flat_texts (cons d ds)))
unfolding render_into flat_text
items_cons d ds limit tabs indent column p q =
    rw (p, q) (ground (arith, length-append (flat_text d) (flat_texts ds)))

-- In flat mode such a document is its one-line layout, whatever groups are nested in it.
mutual
  unfolding render_into emit_line flat_text has_hardline

  render_into-flat :
      (d : Doc) (limit : ℕ) (tabs : Bool) (indent column : ℕ)
      → has_hardline d ≡ false
      → column + length (flat_text d) ≤ limit
      → render_into d limit tabs indent column true ≡ (flat_text d, column + length (flat_text d))
  render_into-flat null limit tabs indent column h l = ground arith
  render_into-flat (text s) limit tabs indent column h l = refl
  render_into-flat (line hard) limit tabs indent column h l = rw h refl
  render_into-flat (nest n d) limit tabs indent column h l =
      render_into-flat d limit tabs (indent + n) column h l
  render_into-flat (group d) limit tabs indent column h l =
      rw (one_line→fits d column limit h l) (render_into-flat d limit tabs indent column h l)
  render_into-flat (concat ds) limit tabs indent column h l =
      render_items-flat ds limit tabs indent column h l
  render_into-flat (align d) limit tabs indent column h l =
      render_into-flat d limit tabs column column h l
  render_into-flat (comment s lead trail) limit tabs indent column h l = refl

  render_items-flat :
      (ds : Docs) (limit : ℕ) (tabs : Bool) (indent column : ℕ)
      → have_hardline ds ≡ false
      → column + length (flat_texts ds) ≤ limit
      → render_items ds limit tabs indent column true
        ≡ (flat_texts ds, column + length (flat_texts ds))
  render_items-flat nil limit tabs indent column h l = ground arith
  render_items-flat (cons d ds) limit tabs indent column h l =
      let both = length-append (flat_text d) (flat_texts ds) in
      items_cons d ds limit tabs indent column
        (render_into-flat d limit tabs indent column (or-left _ _ h) (omega (arith, both)))
        (render_items-flat ds limit tabs indent (column + length (flat_text d)) (or-right _ _ h)
          (omega (arith, both)))

-- A group is its one-line layout where no line break is forced in it and that layout ends within the
-- limit, whatever the mode around it; otherwise it is laid out in break mode.
pub render_into-group :
    (d : Doc) (limit : ℕ) (tabs : Bool) (indent column : ℕ) (flat : Bool)
    → ((has_hardline d ≡ false)
        → column + length (flat_text d) ≤ limit
        → render_into (group d) limit tabs indent column flat
          ≡ (flat_text d, column + length (flat_text d)))
      × ((has_hardline d ≡ true) ⊎ (limit < column + length (flat_text d))
          → render_into (group d) limit tabs indent column flat
            ≡ render_into d limit tabs indent column false)
unfolding render_into
render_into-group d limit tabs indent column flat = (
  λ h l. rw (one_line→fits d column limit h l) (render_into-flat d limit tabs indent column h l),
  λ n. rw (not-fits d column limit n) refl,
)
