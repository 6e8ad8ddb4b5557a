-- ===== src/Loader/Dynlibs/Laws.antt =====
-- Which libraries are loaded.
use pyodide.Base.{
  Text, codes, text_beq, text_eq, ◌≡◌, false, ◌&&◌, ◌||◌, not, List, [], ◌∷◌, ◌++◌, elem, some,
  arith,
}
use pyodide.Loader.Dynlibs.{Paths, tag_before, tag_of, should_load_dynlib}

tag_before-append :
    (before tag : Text) (front rest : List Text)
    → elem (codes ".so") (front ++ tag ∷ []) ≡ false
    → tag_before before (front ++ tag ∷ codes ".so" ∷ rest) ≡ some tag
unfolding tag_before elem codes text_beq
tag_before-append before tag [] rest h =
    ground (arith, text_eq.beq_iff tag (codes ".so"), text_eq.beq_iff (codes ".so") tag)
tag_before-append before tag (a ∷ front) rest h = ground (
  arith,
  tag_before-append a tag front rest,
  text_eq.beq_iff a (codes ".so"),
  text_eq.beq_iff (codes ".so") a,
)

-- A shared library whose first suffix .so has a suffix before it is loaded exactly if that is a tag of this
-- interpreter, or is not the tag of another one.
pub should_load_dynlib_lem :
    (paths : Paths) (extension_tags : List Text) (path tag : Text) (front rest : List Text)
    → paths.suffixes_of path ≡ front ++ tag ∷ codes ".so" ∷ rest
    → elem (codes ".so") (front ++ tag ∷ []) ≡ false
    → should_load_dynlib paths extension_tags path ≡ (
        paths.is_sharedlib (paths.name_of path)
        && (elem tag extension_tags || not (paths.is_platform_tag tag)))
unfolding should_load_dynlib tag_of
should_load_dynlib_lem paths extension_tags path tag front rest h k =
    let found : tag_of (paths.suffixes_of path) ≡ some tag =
      rw h (tag_before-append _ tag front rest k) in
    rw found (ground arith)
