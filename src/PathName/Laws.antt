-- ===== src/PathName/Laws.antt =====
-- The name at the end of a path, by path_to_file_name of ffp_fingerprint.c.
use ffprinter.Prelude.{
  ℕ, zero, suc, ◌+◌, ◌-◌, ◌≤◌, ◌<◌, ◌≡◌, ◌≢◌, refl, ap, sym, ◌∙◌, Bool, true, false, some, List, [],
  ◌∷◌, ◌++◌, arith, ltb, ◌==◌, if◌then◌else◌, length, get_elem?, take, drop, length-append,
  get_elem?-append_left, get_elem?-append_right, get_elem?-of_lt, take-append, take-of_ge,
  drop-append_ge, success, All,
}
use mathlib.Core.Path.{subst}
use mathlib.Core.List.{append_assoc}
use ffprinter.PathName.{
  slash, backslash, file_name_max, is_char, is_at, ends_name, read_back, path_to_file_name,
}

-- A name has no slash.
abbrev pub IsName : List ℕ → Type 0
IsName name = All (λ c. c ≢ slash) name

ends_name_not : (path : List ℕ) (i : ℕ) → is_at path i slash ≡ false → ends_name path i ≡ false
unfolding ends_name
ends_name_not path zero h = h
ends_name_not path (suc i) h = rw (h, ends_name)

read_back_more :
    (path : List ℕ) (i len : ℕ)
    → ends_name path i ≡ false
    → read_back path (suc i) len ≡ read_back path i (len + 1)
unfolding read_back
read_back_more path i len h = rw (h, read_back)

read_back_stop :
    (path : List ℕ) (i len : ℕ)
    → ends_name path i ≡ true
    → read_back path (suc i) len ≡ (suc i, len)
unfolding read_back
read_back_stop path i len h = rw (h, read_back)

name_at : (name : List ℕ) (k c : ℕ) → IsName name → get_elem? name k ≡ some c → c ≢ slash
name_at [] k c h e = absurd (cc)
name_at (d ∷ name) zero c h e = let is : d ≡ c = cc in rw (sym is) h.0
name_at (d ∷ name) (suc k) c h e = name_at name k c h.1 e

is_at_name :
    (pre name rest : List ℕ) (k : ℕ)
    → IsName name
    → k < length name
    → is_at (pre ++ (name ++ rest)) (length pre + k) slash ≡ false
is_at_name pre name rest k h lt =
    let (c, e) = get_elem?-of_lt name k lt in
    let ne = name_at name k c h e in
    let at : get_elem? (pre ++ (name ++ rest)) (length pre + k) ≡ some c =
      get_elem?-append_right pre (name ++ rest) k ∙ get_elem?-append_left name rest k lt ∙ e in
    ap (λ o. is_char o slash) at ∙ ground arith

-- The loop goes back over a name.
read_back-name :
    (pre name rest : List ℕ) (k len : ℕ)
    → IsName name
    → k ≤ length name
    → read_back (pre ++ (name ++ rest)) (length pre + k) len
      ≡ read_back (pre ++ (name ++ rest)) (length pre) (len + k)
read_back-name pre name rest zero len h le =
    let a : length pre + 0 ≡ length pre = omega arith in
    let b : len + 0 ≡ len = omega arith in rw (a, b)
read_back-name pre name rest (suc k) len h le =
    let a : length pre + suc k ≡ suc (length pre + k) = omega arith in
    let b : len + 1 + k ≡ len + suc k = omega arith in
    let path = pre ++ (name ++ rest) in
    let no = ends_name_not path (length pre + k) (is_at_name pre name rest k h (omega arith)) in
    ap (λ n. read_back path n len) a
    ∙ read_back_more path (length pre + k) len no
    ∙ read_back-name pre name rest k (len + 1) h (omega arith)
    ∙ ap (read_back path (length pre)) b

-- The directory before a slash: none, or one that does not end in a backslash.
abbrev pub IsDir : List ℕ → Type 0
IsDir dir = is_at dir (length dir - 1) backslash ≡ false

ends_name_here :
    (path : List ℕ) (i : ℕ)
    → is_at path (suc i) slash ≡ true
    → is_at path i backslash ≡ false
    → ends_name path (suc i) ≡ true
unfolding ends_name
ends_name_here path i h g = rw (h, ends_name, g)

slash_at : (dir rest : List ℕ) → IsDir dir → ends_name (dir ++ slash ∷ rest) (length dir) ≡ true
unfolding ends_name
slash_at [] rest h = refl
slash_at (c ∷ cs) rest h =
    let z : length (c ∷ cs) + 0 ≡ suc (length cs) = omega arith in
    let at : get_elem? ((c ∷ cs) ++ slash ∷ rest) (suc (length cs)) ≡ some slash =
      ap (get_elem? ((c ∷ cs) ++ slash ∷ rest)) (sym z)
      ∙ get_elem?-append_right (c ∷ cs) (slash ∷ rest) 0 in
    let before : get_elem? ((c ∷ cs) ++ slash ∷ rest) (length cs) ≡ get_elem? (c ∷ cs) (length cs) =
      get_elem?-append_left (c ∷ cs) (slash ∷ rest) (length cs) (omega arith) in
    let e : length (c ∷ cs) - 1 ≡ length cs = omega arith in
    let no : is_at (c ∷ cs) (length cs) backslash ≡ false =
      subst (λ n. is_at (c ∷ cs) n backslash ≡ false) e h in
    ends_name_here ((c ∷ cs) ++ slash ∷ rest) (length cs) (ap (λ o. is_char o slash) at)
      (ap (λ o. is_char o backslash) before ∙ no)

-- What follows the name: nothing, or one slash.
abbrev pub tail : Bool → List ℕ
tail true = slash ∷ []
tail false = []

-- The end that the loop starts from: the slash behind the name is left out.
end_lem :
    (pre name : List ℕ) (t : Bool)
    → IsName name
    → 0 < length name
    → (if is_at (pre ++ (name ++ tail t)) (length (pre ++ (name ++ tail t)) - 1) slash
        then length (pre ++ (name ++ tail t)) - 1
        else length (pre ++ (name ++ tail t)))
      ≡ length pre + length name
end_lem pre name true h lt =
    let a = length-append pre (name ++ slash ∷ []) in
    let b = length-append name (slash ∷ []) in
    let e : length (pre ++ (name ++ slash ∷ [])) - 1 ≡ length pre + (length name + 0) =
      omega arith in
    let at : get_elem? (pre ++ (name ++ slash ∷ [])) (length pre + (length name + 0)) ≡ some slash =
      get_elem?-append_right pre (name ++ slash ∷ []) (length name + 0)
      ∙ get_elem?-append_right name (slash ∷ []) 0 in
    let is : is_at (pre ++ (name ++ slash ∷ [])) (length (pre ++ (name ++ slash ∷ [])) - 1) slash
        ≡ true =
      ap (λ n. is_at (pre ++ (name ++ slash ∷ [])) n slash) e ∙ ap (λ o. is_char o slash) at in
    rw is (omega arith)
end_lem pre name false h lt =
    let a = length-append pre (name ++ []) in
    let b = length-append name (let z : List ℕ = [] in z) in
    let e : length (pre ++ (name ++ [])) - 1 ≡ length pre + (length name - 1) = omega arith in
    let is : is_at (pre ++ (name ++ [])) (length (pre ++ (name ++ [])) - 1) slash ≡ false =
      ap (λ n. is_at (pre ++ (name ++ [])) n slash) e
      ∙ is_at_name pre name [] (length name - 1) h (omega arith) in
    rw is (omega arith)

take_name :
    (pre name : List ℕ) (t : Bool)
    → take (length name) (drop (length pre) (pre ++ (name ++ tail t))) ≡ name
take_name pre name t =
    let e : length pre ≡ length pre + 0 = omega arith in
    ap (λ n. take (length name) (drop n (pre ++ (name ++ tail t)))) e
    ∙ ap (take (length name)) (drop-append_ge 0 pre (name ++ tail t))
    ∙ take-append (length name) name (tail t) (omega arith)
    ∙ take-of_ge (length name) name (omega arith)

path_runs :
    (path : List ℕ) (end start len : ℕ) (name : List ℕ)
    → 0 < length path
    → (if is_at path (length path - 1) slash then length path - 1 else length path) ≡ end
    → read_back path end 0 ≡ (start, len)
    → 0 < len
    → len ≤ file_name_max
    → take len (drop start path) ≡ name
    → path_to_file_name path ≡ some (success, some name)
unfolding path_to_file_name
path_runs [] end start len name pos e loop lt le got = absurd (omega arith)
path_runs (c ∷ cs) end start len name pos e loop lt le got =
    let a : ltb file_name_max len ≡ false = ground arith in
    let b : (len == 0) ≡ false = ground arith in
    let whole = ap (λ n. read_back (c ∷ cs) n 0) e ∙ loop in rw (whole, a, b, got)

at_start :
    (name : List ℕ) (t : Bool)
    → read_back ([] ++ (name ++ tail t)) (length (let z : List ℕ = [] in z)) (length name)
      ≡ (length (let z : List ℕ = [] in z), length name)
unfolding read_back
at_start name t = refl

at_slash :
    (dir name : List ℕ) (t : Bool)
    → IsDir dir
    → read_back ((dir ++ slash ∷ []) ++ (name ++ tail t)) (length (dir ++ slash ∷ [])) (length name)
      ≡ (length (dir ++ slash ∷ []), length name)
at_slash dir name t d =
    let l : length (dir ++ slash ∷ []) ≡ suc (length dir) =
      length-append dir (slash ∷ []) ∙ omega arith in
    let path = (dir ++ slash ∷ []) ++ (name ++ tail t) in
    let is : ends_name path (length dir) ≡ true =
      subst (λ p. ends_name p (length dir) ≡ true)
        (sym (append_assoc dir (slash ∷ []) (name ++ tail t))) (slash_at dir (name ++ tail t) d) in
    ap (λ n. read_back path n (length name)) l
    ∙ read_back_stop path (length dir) (length name) is
    ∙ ap (λ n. (n, length name)) (sym l)

-- The result, from where the loop stops.
from_loop :
    (pre name : List ℕ) (t : Bool)
    → IsName name
    → 0 < length name
    → length name ≤ file_name_max
    → read_back (pre ++ (name ++ tail t)) (length pre) (length name) ≡ (length pre, length name)
    → path_to_file_name (pre ++ (name ++ tail t)) ≡ some (success, some name)
from_loop pre name t h lt le stop =
    let path = pre ++ (name ++ tail t) in
    let z : 0 + length name ≡ length name = omega arith in
    let loop : read_back path (length pre + length name) 0 ≡ (length pre, length name) =
      read_back-name pre name (tail t) (length name) 0 h (omega arith)
      ∙ ap (read_back path (length pre)) z
      ∙ stop in
    path_runs path (length pre + length name) (length pre) (length name) name
      (let a = length-append pre (name ++ tail t) in
        let b = length-append name (tail t) in omega arith)
      (end_lem pre name t h lt) loop lt le (take_name pre name t)

-- A path of a directory, a slash and a name, or of a name alone, with a slash behind it or without:
-- path_to_file_name gives the name, if it has 1 to 260 characters and no slash and if the slash
-- before it is not escaped.
pub path_to_file_name-join :
    (dir name : List ℕ) (t : Bool)
    → IsDir dir
    → IsName name
    → 0 < length name
    → length name ≤ file_name_max
    → (path_to_file_name (dir ++ slash ∷ (name ++ tail t)) ≡ some (success, some name))
      × (path_to_file_name (name ++ tail t) ≡ some (success, some name))
path_to_file_name-join dir name t d h lt le = (
  subst (λ p. path_to_file_name p ≡ some (success, some name))
      (append_assoc dir (slash ∷ []) (name ++ tail t))
      (from_loop (dir ++ slash ∷ []) name t h lt le (at_slash dir name t d)),
  from_loop [] name t h lt le (at_start name t),
)
