-- ===== src/FilePath/Examples.antt =====
-- Paths by example.
use tentacles.Base.{◌≡◌, refl, some, none, [], ◌∷◌, codes}
use tentacles.FilePath.{clean_path, join, rel, dir}

clean_up : clean_path (codes "/a//b/../c/./d/") ≡ codes "/a/c/d"
unfolding clean_path
clean_up = refl

clean_out : clean_path (codes "a/../../b") ≡ codes "../b"
unfolding clean_path
clean_out = refl

clean_empty : clean_path [] ≡ codes "."
unfolding clean_path
clean_empty = refl

join_three :
    join (codes "/var/lib/" ∷ codes "pools" ∷ codes "org" ∷ []) ≡ codes "/var/lib/pools/org"
unfolding join
join_three = refl

rel_side : rel (codes "/a/b/c") (codes "/a/d") ≡ some (codes "../../d")
unfolding rel
rel_side = refl

rel_down : rel (codes "home") (codes "home/x") ≡ some (codes "x")
unfolding rel
rel_down = refl

rel_mixed : rel (codes "/home") (codes "home") ≡ none
unfolding rel
rel_mixed = refl

rel_root : rel (codes "/") (codes "/a") ≡ some (codes "a")
unfolding rel
rel_root = refl

dir_root : dir (codes "/a") ≡ codes "/"
unfolding dir
dir_root = refl

dir_two : dir (codes "/a/b") ≡ codes "/a"
unfolding dir
dir_two = refl
