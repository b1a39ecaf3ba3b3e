-- ===== src/Fmt/Layout/Flat.antt =====
-- The one-line layout of a document, written down without widths and modes.
use nslc.Fmt.Doc.{Doc, Docs, null, text, line, nest, group, concat, align, comment, nil, cons}
use nslc.Prelude.{Bytes, Bool, false, ◌||◌, [], ◌∷◌, ◌++◌}

-- Every line is a blank.
unfoldable mutual
  pub flat_text : Doc → Bytes
  flat_text null = []
  flat_text (text s) = s
  flat_text (line hard) = b' ' ∷ []
  flat_text (nest indent d) = flat_text d
  flat_text (group d) = flat_text d
  flat_text (concat ds) = flat_texts ds
  flat_text (align d) = flat_text d
  flat_text (comment s leading trailing) = s

  pub flat_texts : Docs → Bytes
  flat_texts nil = []
  flat_texts (cons d ds) = flat_text d ++ flat_texts ds

-- Whether a line break is forced.
unfoldable mutual
  pub has_hardline : Doc → Bool
  has_hardline null = false
  has_hardline (text s) = false
  has_hardline (line hard) = hard
  has_hardline (nest indent d) = has_hardline d
  has_hardline (group d) = has_hardline d
  has_hardline (concat ds) = have_hardline ds
  has_hardline (align d) = has_hardline d
  has_hardline (comment s leading trailing) = false

  pub have_hardline : Docs → Bool
  have_hardline nil = false
  have_hardline (cons d ds) = has_hardline d || have_hardline ds
