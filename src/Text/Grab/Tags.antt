-- ===== src/Text/Grab/Tags.antt =====
-- tag_count of ffprinter.c on tags that are joined by '|'.
use ffprinter.Prelude.{
  ℕ, zero, suc, ◌+◌, ◌-◌, ◌≤◌, ◌<◌, ◌≡◌, refl, ap, ◌∙◌, false, some, List, [], ◌∷◌, ◌++◌, arith,
  length, All, drop, length-append, leb, true,
}
use Prim.Native.Nat.{max}
use mathlib.Core.List.{append-nil}
use ffprinter.Text.Str.{escape_loop}
use ffprinter.Text.Grab.{outside, no_field, grab_loop, Counts, tag_loop, tag_count}
use ffprinter.Text.Grab.Laws.{grab_loop-Fits, IsPlain, grab_stop, grab_escape, field}

length-drop : (n : ℕ) (xs : List ℕ) → length (drop n xs) ≡ length xs - n
length-drop zero xs = omega arith
length-drop (suc n) [] = omega arith
length-drop (suc n) (x ∷ xs) = omega (arith, length-drop n xs)

-- The loop ends on a text that fits into `tag`: each round moves on by one character at least.
tag_loop_total :
    (fuel : ℕ) (src : List ℕ) (c : Counts)
    → length src < fuel
    → length src ≤ 1641
    → (r : Counts) × (tag_loop fuel src c ≡ some r)
unfolding tag_loop
tag_loop_total zero src c h s = absurd (omega arith)
tag_loop_total (suc fuel) [] c h s = (c, refl)
tag_loop_total (suc fuel) (x ∷ src) c h s =
    let f = grab_loop false b'|' outside (x ∷ src) in
    let fits : leb (length f.text) 1641 ≡ true =
      let (a, _, _) = grab_loop-Fits false b'|' outside (x ∷ src) in ground arith in
    rw fits (
      tag_loop_total fuel (drop (f.len_read + 1) (x ∷ src)) _
        (omega (arith, length-drop (f.len_read + 1) (x ∷ src)))
        (omega (arith, length-drop (f.len_read + 1) (x ∷ src))))

-- A tag: not empty, no separator, no quote, no escape.
pub record IsTag (t : List ℕ) : Type 0 where
  pub plain : All IsPlain t
  pub unsplit : escape_loop b'|' t ≡ t
  pub filled : 0 < length t

pub join : List (List ℕ) → List ℕ
join [] = []
join (t ∷ []) = t
join (t ∷ u ∷ ts) = t ++ b'|' ∷ join (u ∷ ts)

unfoldable pub longest : List (List ℕ) → ℕ
longest [] = 0
longest (t ∷ ts) = max (length t) (longest ts)

abbrev pub count_tags : Counts → List (List ℕ) → Counts
count_tags c ts = record { tag_num = c.tag_num + length ts; max_len = max c.max_len (longest ts) }

pub tag_step :
    (fuel : ℕ) (src rest t : List ℕ) (c : Counts)
    → 0 < length src
    → grab_loop false b'|' outside src ≡ field t (length t)
    → drop (length t + 1) src ≡ rest
    → length t ≤ 1641
    → tag_loop (suc fuel) src c
      ≡ tag_loop fuel rest (record { tag_num = c.tag_num + 1; max_len = max c.max_len (length t) })
unfolding tag_loop
tag_step fuel [] rest t c h e d s = absurd (omega arith)
tag_step fuel (x ∷ src) rest t c h e d s =
    let fits : leb (length t) 1641 ≡ true = ground arith in
    rw (e, d, fits)
      (ap (λ n. tag_loop fuel rest (record { tag_num = c.tag_num + 1; max_len = n }))
        (ground arith))

pub drop_past : (t rest : List ℕ) (x : ℕ) → drop (length t + 1) (t ++ x ∷ rest) ≡ rest
drop_past [] rest x = refl
drop_past (c ∷ t) rest x =
    let e : suc (length t) + 1 ≡ suc (length t + 1) = omega arith in rw (e, drop_past t rest x)

drop_all : (t : List ℕ) → drop (length t + 1) t ≡ []
drop_all [] = refl
drop_all (c ∷ t) =
    let e : suc (length t) + 1 ≡ suc (length t + 1) = omega arith in rw (e, drop_all t)

pub bar-IsPlain : IsPlain b'|'
bar-IsPlain = record {
  ne_single = omega arith;
  ne_double = omega arith;
  ne_backslash = omega arith;
}

pub grab_tag :
    (t tail : List ℕ)
    → IsTag t
    → grab_loop false b'|' outside tail ≡ no_field
    → grab_loop false b'|' outside (t ++ tail) ≡ field t (length t)
grab_tag t tail tag end = rw tag.unsplit at (grab_escape b'|' t tail bar-IsPlain tag.plain end)

tag_loop-join :
    (fuel : ℕ) (ts : List (List ℕ)) (c : Counts)
    → All IsTag ts
    → length ts < fuel
    → longest ts ≤ 1641
    → tag_loop fuel (join ts) c ≡ some (count_tags c ts)
unfolding join longest
tag_loop-join zero ts c h l s = absurd (omega arith)
tag_loop-join (suc fuel) [] c h l s = unfold tag_loop in ground arith
tag_loop-join (suc fuel) (t ∷ []) c h l s =
    tag_step fuel t [] t c h.0.filled
      (rw append-nil at (grab_tag t [] h.0 (unfold grab_loop in refl))) (drop_all t) (omega arith)
    ∙ tag_loop-join fuel [] _ tt (omega arith) (omega arith)
    ∙ ground arith
tag_loop-join (suc fuel) (t ∷ u ∷ ts) c h l s =
    let rest = join (u ∷ ts) in
    tag_step fuel (t ++ b'|' ∷ rest) rest t c (omega (arith, length-append t (b'|' ∷ rest)))
      (grab_tag t (b'|' ∷ rest) h.0 (grab_stop false b'|' rest bar-IsPlain)) (drop_past t rest b'|')
      (omega arith)
    ∙ tag_loop-join fuel (u ∷ ts) _ h.1 (omega arith) (omega arith)
    ∙ ground arith

length-le-join : (ts : List (List ℕ)) → All IsTag ts → length ts ≤ length (join ts)
unfolding join
length-le-join [] h = omega arith
length-le-join (t ∷ []) h = omega (arith, h.0.filled)
length-le-join (t ∷ u ∷ ts) h =
    omega (arith, length-append t (b'|' ∷ join (u ∷ ts)), length-le-join (u ∷ ts) h.1)

-- tag_count ends on every text of at most 1641 characters, TAG_STR_MAX, and no field of it is too long for the local buffer.
pub tag_count_total : (src : List ℕ) → length src ≤ 1641 → (r : Counts) × (tag_count src ≡ some r)
unfolding tag_count
tag_count_total src s = tag_loop_total (length src + 1) src _ (omega arith) s

-- On tags that are not empty, hold no separator, quote or escape, and are joined by '|', tag_count
-- gives their number (no tag being longer than TAG_STR_MAX) and the length of the longest.
pub tag_count-join :
    (ts : List (List ℕ))
    → All IsTag ts
    → longest ts ≤ 1641
    → tag_count (join ts) ≡ some (record { tag_num = length ts; max_len = longest ts })
unfolding tag_count
tag_count-join ts h s =
    tag_loop-join (length (join ts) + 1) ts _ h (omega (arith, length-le-join ts h)) s
    ∙ ground arith
