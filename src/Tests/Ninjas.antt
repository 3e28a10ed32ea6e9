-- ===== src/Tests/Ninjas.antt =====
-- The Ninja writer at concrete inputs.
use xcbuild.Prelude.{◌≡◌, refl, some, List, [], ◌∷◌, ◌++◌}
use xcbuild.Prelude.Text.{Bytes, codes}
use xcbuild.Ninja.{
  Binding, build_path_list, path_list, string, expression, resolve, resolve_chunk, write_bindings,
  build,
}
use xcbuild.Ninja.Escapes.{escaped, is_special, resolve_chunk-escaped}
use xcbuild.Ninja.Lines.{strings}
use xcbuild.Ninja.Builds.{Build, IsBuild, read_build, read_build-build}

resolve_chunk-escaped_example :
    resolve_chunk build_path_list (string (codes "a $b:c"))
    ≡ escaped (is_special build_path_list) (codes "a $b:c")
resolve_chunk-escaped_example = resolve_chunk-escaped build_path_list (codes "a $b:c")

path_with_space :
    resolve path_list (string (codes "a b$") ∷ expression (codes "$out c:") ∷ [])
    ≡ codes "a$ b$$$out$ c:"
unfolding resolve
path_with_space = refl

abbrev lines : List Binding
lines = (codes "dir", string (codes "x$") ∷ []) ∷ []

abbrev linking : Build
linking = record {
  outputs = codes "a.out" ∷ [];
  name = codes "ld";
  inputs = codes "m n.o" ∷ codes "c:x.o" ∷ [];
  dependencies = [];
  orders = codes "all" ∷ [];
}

build_text :
    build
      (strings linking.outputs)
      linking.name
      (strings linking.inputs)
      lines
      (strings linking.dependencies)
      (strings linking.orders)
      []
    ≡ codes "build a.out: ld m$ n.o c$:x.o || all\n  dir = x$$\n\n"
unfolding build
build_text = refl

linking-IsBuild : IsBuild linking
linking-IsBuild = record {
  outputs = ((refl, (refl, (refl, (refl, (refl, tt))))), tt);
  name = (refl, (refl, tt));
  inputs = (
    (refl, (refl, (refl, (refl, (refl, tt))))),
    ((refl, (refl, (refl, (refl, (refl, tt))))), tt),
  );
  dependencies = tt;
  orders = ((refl, (refl, (refl, tt))), tt);
}

read_build-build_example :
    (line : Bytes) × (build
        (strings linking.outputs)
        linking.name
        (strings linking.inputs)
        lines
        (strings linking.dependencies)
        (strings linking.orders)
        []
      ≡ [] ++ (codes "build " ++ line))
    × (read_build line ≡ some (linking, 10 ∷ (write_bindings lines [] ++ 10 ∷ [])))
read_build-build_example = read_build-build linking (codes "a.out") [] lines [] refl linking-IsBuild
