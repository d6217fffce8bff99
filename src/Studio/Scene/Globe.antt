-- ===== src/Studio/Scene/Globe.antt =====
-- The scene of frontend/dashboard/src/components/Studio/Studio3DSphere.tsx.
use surakshanet.Base.{ℕ, zero, suc, ◌+◌, ◌*◌, true, false, some, List, [], ◌∷◌, map}
use surakshanet.Studio.{Vec, Space, ShellTile, zero_vec, tile_colors, new_tile}
use surakshanet.Studio.Sphere.{outer_radius}
use surakshanet.Studio.Scene.{
  sphere_geometry, box_geometry, amount, flag, color, constant, Settings, Material, Mesh, Light,
  Camera, vec, mesh, light, neg, highlight,
}

-- The draws of a tile, for its tilt and its offset.
pub record TileDraws (F : Type 0) : Type 0 where
  pub tilt : Vec F
  pub offset : F

module _ {F : Type 0} (sp : Space F) where
  unfoldable pub globe_camera : F → Camera F
  globe_camera aspect = record {
    fov = sp.ratio 36 1;
    aspect = aspect;
    near = sp.ratio 1 10;
    far = sp.ratio 1000 1;
    position = vec (sp.ratio 0 1) (sp.ratio 5 10) (sp.ratio 88 10);
  }

  -- The settings of the renderer, for `Math.min(window.devicePixelRatio, 2)`.
  unfoldable pub globe_renderer : F → Settings F
  globe_renderer pixel_ratio =
      ("antialias", flag true)
      ∷ ("alpha", flag true)
      ∷ ("powerPreference", constant "high-performance")
      ∷ ("pixelRatio", amount pixel_ratio)
      ∷ ("toneMapping", constant "ACESFilmicToneMapping")
      ∷ ("toneMappingExposure", amount (sp.ratio 125 100))
      ∷ ("shadowMap.enabled", flag true)
      ∷ ("shadowMap.type", constant "PCFSoftShadowMap")
      ∷ []

  abbrev pub group_position : Vec F
  group_position = vec (neg sp 15 100) (neg sp 19 10) (sp.ratio 0 1)

  abbrev inner_radius : F
  inner_radius = sp.ratio 295 100

  unfoldable pub inner_globe : List (Mesh F)
  inner_globe =
      mesh sp "innerSolid" "group" (sphere_geometry (sp.times inner_radius (sp.ratio 99 100)) 64 64)
        (record {
          kind = "MeshStandardMaterial";
          settings =
              ("color", color "0xFFF7F5")
              ∷ ("roughness", amount (sp.ratio 5 10))
              ∷ ("metalness", amount (sp.ratio 2 100))
              ∷ [];
        })
        (zero_vec sp)
      ∷ mesh sp "innerGrid" "group" (sphere_geometry inner_radius 80 50)
          (record {
            kind = "MeshBasicMaterial";
            settings =
                ("color", color "0xD04A40")
                ∷ ("wireframe", flag true)
                ∷ ("transparent", flag true)
                ∷ ("opacity", amount (sp.ratio 5 10))
                ∷ [];
          })
          (zero_vec sp)
      ∷ []

  abbrev ball_radius : F
  ball_radius = sp.ratio 72 100

  unfoldable pub ball : List (Mesh F)
  ball =
      record (mesh sp "ballMesh" "group" (sphere_geometry ball_radius 64 64)
        (record {
          kind = "MeshPhysicalMaterial";
          settings =
              ("color", color "0x000000")
              ∷ ("roughness", amount (sp.ratio 2 100))
              ∷ ("metalness", amount (sp.ratio 5 100))
              ∷ ("clearcoat", amount (sp.ratio 1 1))
              ∷ ("clearcoatRoughness", amount (sp.ratio 2 100))
              ∷ ("reflectivity", amount (sp.ratio 1 1))
              ∷ [];
        })
        (zero_vec sp)) { cast_shadow = true }
      ∷ record (highlight sp "hl1" "ballMesh" ball_radius 28 32 98
          (vec (neg sp 26 100) (sp.ratio 46 100) (sp.ratio 88 100))) {
            rotation = vec (neg sp 12 100) (sp.ratio 18 100) (sp.ratio 0 1);
          }
      ∷ record (highlight sp "hl2" "ballMesh" ball_radius 13 32 90
          (vec (neg sp 48 100) (sp.ratio 20 100) (sp.ratio 85 100))) {
            rotation = vec (neg sp 8 100) (sp.ratio 30 100) (sp.ratio 0 1);
          }
      ∷ highlight sp "hl3" "ballMesh" ball_radius 8 32 70
          (vec (neg sp 18 100) (neg sp 32 100) (sp.ratio 90 100))
      ∷ []

  -- The materials of the tiles.
  unfoldable pub tile_mats : List (Material F)
  tile_mats =
      map
        (λ c. record {
          kind = "MeshStandardMaterial";
          settings =
              ("color", color c)
              ∷ ("roughness", amount (sp.ratio 32 100))
              ∷ ("metalness", amount (sp.ratio 6 100))
              ∷ ("flatShading", flag true)
              ∷ ("side", constant "DoubleSide")
              ∷ [];
        })
        tile_colors

  -- The `n` tiles from the face `i` on, for the corners of the faces one after the other.
  abbrev pub tiles_from : (ℕ → Vec F) → (ℕ → TileDraws F) → ℕ → ℕ → List (ShellTile F)
  tiles_from position draws zero i = []
  tiles_from position draws (suc n) i =
      new_tile sp i (position (i * 3)) (position (i * 3 + 1)) (position (i * 3 + 2)) (draws i).tilt
        (draws i).offset
      ∷ tiles_from position draws n (suc i)

  -- The mesh that all shards share, but for where they are.
  unfoldable pub chip_mesh : Mesh F
  chip_mesh =
      mesh sp "chip" "debrisGroup"
        (box_geometry (sp.ratio 12 100) (sp.ratio 9 100) (sp.ratio 2 100))
        (record {
          kind = "MeshStandardMaterial";
          settings =
              ("color", color "0xC4382D")
              ∷ ("roughness", amount (sp.ratio 35 100))
              ∷ ("metalness", amount (sp.ratio 4 100))
              ∷ ("flatShading", flag true)
              ∷ ("side", constant "DoubleSide")
              ∷ [];
        })
        (zero_vec sp)

  unfoldable pub globe_lights : List (Light F)
  globe_lights =
      record (light sp "DirectionalLight" "0xFFFAF5" (sp.ratio 3 1)
        (vec (sp.ratio 7 1) (sp.ratio 12 1) (sp.ratio 9 1))) { cast_shadow = true }
      ∷ light sp "DirectionalLight" "0xFFE4DC" (sp.ratio 12 10)
          (vec (neg sp 7 1) (sp.ratio 4 1) (sp.ratio 6 1))
      ∷ light sp "DirectionalLight" "0xFF7A68" (sp.ratio 25 10)
          (vec (neg sp 5 1) (neg sp 4 1) (neg sp 6 1))
      ∷ light sp "AmbientLight" "0xFFF2EE" (sp.ratio 15 10) (zero_vec sp)
      ∷ record (light sp "PointLight" "0xE5584D" (sp.ratio 35 10)
          (vec (sp.ratio 0 1) (sp.ratio 15 10) (sp.ratio 45 10))) {
            distance = some (sp.ratio 12 1);
          }
      ∷ []

  -- The invisible sphere that the pointer's ray is tested against.
  unfoldable pub virtual_sphere : Mesh F
  virtual_sphere =
      mesh sp "virtualSphereMesh" "group" (sphere_geometry (outer_radius sp) 16 16)
        (record { kind = "MeshBasicMaterial"; settings = ("visible", flag false) ∷ [] })
        (zero_vec sp)
