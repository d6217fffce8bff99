-- ===== src/Studio/Scene/Column.antt =====
-- The scene of frontend/dashboard/src/components/Studio/StudioRightTotem3D.tsx.
use surakshanet.Base.{ℕ, zero, suc, String, true, some, List, [], ◌∷◌, ◌++◌}
use surakshanet.Studio.{Vec, Space, zero_vec}
use surakshanet.Studio.Scene.{
  sphere_geometry, torus_geometry, cone_geometry, amount, flag, color, constant, Settings, Material,
  Mesh, Light, Camera, vec, mesh, light, neg, highlight,
}

module _ {F : Type 0} (sp : Space F) where
  unfoldable pub totem_camera : F → Camera F
  totem_camera aspect = record {
    fov = sp.ratio 40 1;
    aspect = aspect;
    near = sp.ratio 1 10;
    far = sp.ratio 100 1;
    position = vec (sp.ratio 0 1) (sp.ratio 0 1) (sp.ratio 52 10);
  }

  unfoldable pub totem_renderer : F → Settings F
  totem_renderer pixel_ratio =
      ("antialias", flag true)
      ∷ ("alpha", flag true)
      ∷ ("powerPreference", constant "high-performance")
      ∷ ("pixelRatio", amount pixel_ratio)
      ∷ ("toneMapping", constant "ACESFilmicToneMapping")
      ∷ ("toneMappingExposure", amount (sp.ratio 13 10))
      ∷ []

  abbrev pub obsidian_mat : Material F
  obsidian_mat = record {
    kind = "MeshPhysicalMaterial";
    settings =
        ("color", color "0x000000")
        ∷ ("roughness", amount (sp.ratio 2 100))
        ∷ ("metalness", amount (sp.ratio 4 100))
        ∷ ("reflectivity", amount (sp.ratio 1 1))
        ∷ ("clearcoat", amount (sp.ratio 1 1))
        ∷ ("clearcoatRoughness", amount (sp.ratio 2 100))
        ∷ [];
  }

  abbrev pub coral_crystal_mat : Material F
  coral_crystal_mat = record {
    kind = "MeshStandardMaterial";
    settings =
        ("color", color "0xF28E84")
        ∷ ("roughness", amount (sp.ratio 25 100))
        ∷ ("metalness", amount (sp.ratio 1 10))
        ∷ ("flatShading", flag true)
        ∷ ("side", constant "DoubleSide")
        ∷ ("transparent", flag true)
        ∷ ("opacity", amount (sp.ratio 95 100))
        ∷ [];
  }

  -- The highlights that `addHighlights(sphere, r)` adds.
  unfoldable pub add_highlights : String → F → List (Mesh F)
  add_highlights sphere r =
      record (highlight sp "h1" sphere r 25 24 98
        (vec (neg sp 28 100) (sp.ratio 44 100) (sp.ratio 88 100))) {
          rotation = vec (neg sp 12 100) (sp.ratio 18 100) (sp.ratio 0 1);
        }
      ∷ highlight sp "h2" sphere r 12 24 85
          (vec (neg sp 50 100) (sp.ratio 18 100) (sp.ratio 85 100))
      ∷ highlight sp "h3" sphere r 8 24 60 (vec (neg sp 18 100) (neg sp 38 100) (sp.ratio 90 100))
      ∷ []

  -- A ball of a radius at a place, with its highlights.
  abbrev ball : String → F → Vec F → List (Mesh F)
  ball name r place =
      mesh sp name "masterGroup" (sphere_geometry r 48 48) obsidian_mat place
      ∷ add_highlights name r

  abbrev sphere_r : F
  sphere_r = sp.ratio 65 100

  abbrev middle_r : F
  middle_r = sp.times sphere_r (sp.ratio 108 100)

  unfoldable pub balls : List (Mesh F)
  balls =
      ball "topSphere" sphere_r (vec (sp.ratio 0 1) (sp.ratio 105 100) (sp.ratio 0 1))
      ++ ball "midSphere" middle_r (vec (sp.ratio 0 1) (sp.ratio 0 1) (sp.ratio 2 100))
      ++ ball "btmSphere" sphere_r (vec (sp.ratio 0 1) (neg sp 105 100) (sp.ratio 0 1))

  -- The rotation of `ringPivot`.
  abbrev pub pivot_rotation : Vec F
  pivot_rotation = vec (sp.ratio 55 100) (sp.ratio 0 1) (neg sp 15 100)

  unfoldable pub ring : Mesh F
  ring =
      mesh sp "ringMesh" "spinningRing" (torus_geometry (sp.ratio 88 100) (sp.ratio 22 100) 14 32)
        coral_crystal_mat (zero_vec sp)

  -- How far from the centre of the ring its teeth stand.
  abbrev tooth_reach : F
  tooth_reach = sp.plus (sp.ratio 88 100) (sp.times (sp.ratio 22 100) (sp.ratio 9 10))

  unfoldable pub tooth : ℕ → Mesh F
  tooth i =
      let angle = sp.times (sp.times (sp.ratio i 18) sp.pi) (sp.ratio 2 1) in
      record (mesh sp "tooth" "spinningRing" (cone_geometry (sp.ratio 12 100) (sp.ratio 32 100) 5)
        coral_crystal_mat
        (vec (sp.times (sp.cos angle) tooth_reach) (sp.times (sp.sin angle) tooth_reach)
          (sp.ratio 0 1))) {
            rotation =
                vec (sp.ratio 0 1) (sp.ratio 0 1) (sp.minus angle (sp.times sp.pi (sp.ratio 1 2)));
          }

  -- The `n` teeth from `i` on; the code makes 18 from 0 on.
  abbrev pub teeth_from : ℕ → ℕ → List (Mesh F)
  teeth_from zero i = []
  teeth_from (suc n) i = tooth i ∷ teeth_from n (suc i)

  unfoldable pub totem_lights : List (Light F)
  totem_lights =
      light sp "DirectionalLight" "0xFFFFFF" (sp.ratio 32 10)
        (vec (sp.ratio 5 1) (sp.ratio 8 1) (sp.ratio 6 1))
      ∷ light sp "DirectionalLight" "0xFFE8E2" (sp.ratio 14 10)
          (vec (neg sp 5 1) (neg sp 2 1) (sp.ratio 4 1))
      ∷ record (light sp "PointLight" "0xE5584D" (sp.ratio 32 10)
          (vec (sp.ratio 0 1) (sp.ratio 0 1) (sp.ratio 2 1))) { distance = some (sp.ratio 8 1) }
      ∷ light sp "AmbientLight" "0xFFF2EE" (sp.ratio 15 10) (zero_vec sp)
      ∷ []
