-- ===== src/Env/Examples.antt =====
-- Lines of an environment file.
use tentacles.Base.{◌≡◌, refl, codes, [], ◌∷◌, text_eq, find, sort_by, insert_by}
use tentacles.Env.{
  binding, parse_line, is_space, trim_start, trim_end, trim_space, apply, replace, key_of,
  split_equals, assign, text_before,
}
use tentacles.Env.Quoted.{IsKey, quoted_line, parse_line-quoted}

path-IsKey : IsKey (codes "PATH")
unfolding is_space trim_space trim_start trim_end
path-IsKey = record {
  first = 80;
  others = codes "ATH";
  begins = refl;
  no_space = refl;
  no_comment = refl;
  no_equals = (refl, (refl, (refl, (refl, tt))));
  trimmed = refl;
}

parse_line-quoted_example :
    parse_line (quoted_line (codes "PATH") (codes " a=b # c"))
    ≡ binding (codes "PATH") (codes " a=b # c")
parse_line-quoted_example = parse_line-quoted (codes "PATH") (codes " a=b # c") path-IsKey

-- A variable that is there is replaced in its place; the new ones follow in order.
layered :
    apply
      (codes "HOME=/old" ∷ codes "LANG=C" ∷ [])
      ((codes "PATH", codes "/bin") ∷ (codes "HOME", codes "/new") ∷ [])
    ≡ codes "HOME=/new" ∷ codes "LANG=C" ∷ codes "PATH=/bin" ∷ []
unfolding apply replace key_of split_equals assign find text_eq text_before sort_by insert_by
layered = refl
