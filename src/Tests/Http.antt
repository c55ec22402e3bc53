-- ===== src/Tests/Http.antt =====
-- `clean_path` on the paths of src/http/test/http_test.cpp and others, in buffers that are not empty before.
use yotta.Prelude.{
  ◌+◌, ◌≤◌, ◌≡◌, refl, max, Option, some, none, List, [], ◌∷◌, map, Bytes, codes, length, replicate,
  arith, All,
}
use yotta.Http.CleanPath.{
  Output, clean_path, clean_loop, finish, is_rooted, is_dot, is_dotdot, parent, separate,
  copy_element, put, put_at, at_boundary, offset, written, slash,
}
use yotta.Http.CleanPath.Spec.{clean_spec, join, IsElement}
use yotta.Http.CleanPath.Idempotence.{clean_path_idempotent}
use yotta.Http.CleanPath.Correctness.{clean_path-eq-clean_spec}
use yotta.Http.CleanPath.Confinement.{clean_path-stays_below}

abbrev or_empty : Option Output → Bytes
or_empty none = []
or_empty (some o) = written o

-- The text that is written into a buffer of 512 zeros.
abbrev cleaned : Bytes → Bytes
cleaned path = or_empty (clean_path path (replicate 512 0))

-- The cases of src/http/test/http_test.cpp.
abbrev cases : List (Bytes × Bytes)
cases =
    (codes "", codes ".")
    ∷ (codes "abc", codes "abc")
    ∷ (codes "abc/def", codes "abc/def")
    ∷ (codes "a/b/c", codes "a/b/c")
    ∷ (codes ".", codes ".")
    ∷ (codes "..", codes "..")
    ∷ (codes "../..", codes "../..")
    ∷ (codes "../../abc", codes "../../abc")
    ∷ (codes "/abc", codes "/abc")
    ∷ (codes "/", codes "/")
    ∷ (codes "abc/", codes "abc")
    ∷ (codes "abc/def/", codes "abc/def")
    ∷ (codes "a/b/c/", codes "a/b/c")
    ∷ (codes "./", codes ".")
    ∷ (codes "../", codes "..")
    ∷ (codes "../../", codes "../..")
    ∷ (codes "/abc/", codes "/abc")
    ∷ (codes "abc//def//ghi", codes "abc/def/ghi")
    ∷ (codes "//abc", codes "/abc")
    ∷ (codes "///abc", codes "/abc")
    ∷ (codes "//abc//", codes "/abc")
    ∷ (codes "abc//", codes "abc")
    ∷ (codes "abc/./def", codes "abc/def")
    ∷ (codes "/./abc/def", codes "/abc/def")
    ∷ (codes "abc/.", codes "abc")
    ∷ (codes "abc/def/ghi/../jkl", codes "abc/def/jkl")
    ∷ (codes "abc/def/../ghi/../jkl", codes "abc/jkl")
    ∷ (codes "abc/def/..", codes "abc")
    ∷ (codes "abc/def/../..", codes ".")
    ∷ (codes "/abc/def/../..", codes "/")
    ∷ (codes "abc/def/../../..", codes "..")
    ∷ (codes "/abc/def/../../..", codes "/")
    ∷ (codes "abc/def/../../../ghi/jkl/../../../mno", codes "../../mno")
    ∷ (codes "abc/./../def", codes "def")
    ∷ (codes "abc//./../def", codes "def")
    ∷ (codes "abc/../../././../def", codes "../../def")
    ∷ []

cleaned-cases : map (λ r. cleaned r.0) cases ≡ map (λ r. r.1) cases
unfolding clean_path clean_loop finish is_rooted is_dot is_dotdot parent separate copy_element put
    put_at at_boundary written
cleaned-cases = refl

abbrev request : Bytes
request = codes "abc/def/../../../ghi/./jkl//"

abbrev old : Bytes
old = replicate 40 b'x'

clean_path-eq-clean_spec_example :
    (o : Output) × (clean_path request old ≡ some o)
    × (written o ≡ clean_spec request)
    × (offset o ≤ max 1 (length request))
    × (length o.after + offset o ≡ length old)
clean_path-eq-clean_spec_example = clean_path-eq-clean_spec request old (omega arith)

clean_path-stays_below_example :
    (o : Output) × (names : List Bytes) × (clean_path (slash ∷ request) old ≡ some o)
    × (written o ≡ slash ∷ join names)
    × All IsElement names
clean_path-stays_below_example = clean_path-stays_below request old (omega arith)

clean_path_idempotent_example :
    (o : Output) × (o' : Output) × (clean_path (codes "a/../../b//c/.") (replicate 20 7) ≡ some o)
    × (clean_path (written o) (replicate 14 0) ≡ some o')
    × (written o' ≡ written o)
clean_path_idempotent_example =
    clean_path_idempotent (codes "a/../../b//c/.") (replicate 20 7) (replicate 14 0) (omega arith)
      (omega arith)
