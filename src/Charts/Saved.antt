-- ===== src/Charts/Saved.antt =====
-- static/addons/chart-display/addon.js: charts that are saved and loaded into a new page.
use fprime_gds.Base.{◌≢◌, ℕ, refl, [], ◌∷◌, ◌++◌, some, ◌≡◌, ap, sym, ◌∙◌, List, Option, map}
use mathlib.Core.List.{append-nil, append_assoc}
use fprime_gds.Base.Text.{Text, join, codes}
use fprime_gds.Base.Decimal.{trim, is_white}
use fprime_gds.Base.Decimal.RoundTrip.{NoWhite, trim-NoWhite}
use fprime_gds.Table.View.{split_white}
use fprime_gds.Charts.{
  Wrapper, ChartWrapper, add_chart, load_charts, add_charts, without_last, last_is_blank,
  or_null_text, selected_names, saved_charts, new_wrapper,
}

split_white-append :
    (t rest : Text) → NoWhite t → split_white (t ++ 10 ∷ rest) ≡ t ∷ split_white rest
unfolding split_white NoWhite is_white
split_white-append [] rest h = refl
split_white-append (c ∷ t) rest (e, h) = rw (split_white, e, split_white-append t rest h) refl

split_white-last : (t : Text) → NoWhite t → split_white t ≡ t ∷ []
unfolding split_white NoWhite
split_white-last [] h = refl
split_white-last (c ∷ t) (e, h) = rw (e, split_white-last t h) refl

-- Names of charts: not empty, and free of white space.
unfoldable pub AllNames : List Text → Type 0
AllNames [] = Unit
AllNames ([] ∷ ts) = ⊥
AllNames ((c ∷ cs) ∷ ts) = NoWhite (c ∷ cs) × AllNames ts

AllNames-head : (t : Text) (ts : List Text) → AllNames (t ∷ ts) → NoWhite t × AllNames ts
unfolding AllNames
AllNames-head [] ts h = absurd h
AllNames-head (c ∷ cs) ts h = h

split_white-lines :
    (t : Text) (ts : List Text)
    → AllNames (t ∷ ts)
    → split_white (join (codes "\n") (t ∷ ts)) ≡ t ∷ ts
unfolding join
split_white-lines t [] h = split_white-last t (AllNames-head t [] h).0
split_white-lines t (u ∷ ts) h =
    let (n, k) = AllNames-head t (u ∷ ts) h in
    ap split_white (append_assoc t (codes "\n") (join (codes "\n") (u ∷ ts)))
    ∙ split_white-append t (join (codes "\n") (u ∷ ts)) n
    ∙ ap (λ r. t ∷ r) (split_white-lines u ts k)

-- The selections of the charts, blank ones too.
unfoldable pub selections : List Wrapper → List (Option Text)
selections [] = []
selections (x ∷ xs) = x.selected ∷ selections xs

selections-append : (xs ys : List Wrapper) → selections (xs ++ ys) ≡ selections xs ++ selections ys
unfolding selections
selections-append [] ys = refl
selections-append (x ∷ xs) ys = ap (λ r. x.selected ∷ r) (selections-append xs ys)

add_chart-named :
    (w : ChartWrapper) (t : Text) (c : ℕ) (cs : Text)
    → t ≡ c ∷ cs
    → selections (add_chart (some t) w).wrappers ≡ selections w.wrappers ++ some (c ∷ cs) ∷ []
unfolding add_chart or_null_text selections
add_chart-named w t c cs e =
    ap
      (λ u.
        selections (w.wrappers ++ record { id = w.counter; selected = or_null_text (some u) } ∷ []))
      e
    ∙ selections-append w.wrappers (record { id = w.counter; selected = some (c ∷ cs) } ∷ [])

selections-add_charts :
    (ts : List Text) (w : ChartWrapper)
    → AllNames ts
    → selections (add_charts ts w).wrappers ≡ selections w.wrappers ++ map some ts
unfolding add_charts AllNames
selections-add_charts [] w h = sym (append-nil (selections w.wrappers))
selections-add_charts ([] ∷ ts) w h = absurd h
selections-add_charts ((c ∷ cs) ∷ ts) w (n, h) =
    selections-add_charts ts (add_chart (some (trim (c ∷ cs))) w) h
    ∙ ap (λ r. r ++ map some ts) (add_chart-named w (trim (c ∷ cs)) c cs (trim-NoWhite (c ∷ cs) n))
    ∙ append_assoc (selections w.wrappers) (some (c ∷ cs) ∷ []) (map some ts)

load_charts-lines :
    (ts : List Text)
    → ts ≢ []
    → AllNames ts
    → selections (load_charts (join (codes "\n") ts) new_wrapper).wrappers ≡ map some ts
unfolding load_charts new_wrapper last_is_blank without_last selections
load_charts-lines [] n h = absurd (n refl)
load_charts-lines (t ∷ ts) n h =
    rw (split_white-lines t ts h)
      (selections-add_charts (t ∷ ts) (record { counter = 1; wrappers = [] }) h)

-- Where at least one chart has a selection, and the selections are not empty and free of white space,
-- a new page that has loaded the saved charts has one chart for each saved selection, in their order,
-- and no blank one.
pub load_charts-saved_charts :
    (w : ChartWrapper)
    → selected_names w.wrappers ≢ []
    → AllNames (selected_names w.wrappers)
    → selections (load_charts (saved_charts w) new_wrapper).wrappers
      ≡ map some (selected_names w.wrappers)
unfolding saved_charts
load_charts-saved_charts w n h = load_charts-lines (selected_names w.wrappers) n h
