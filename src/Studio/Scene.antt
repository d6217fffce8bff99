-- ===== src/Studio/Scene.antt =====
-- What the two scenes of frontend/dashboard/src/components/Studio are built of: cameras, meshes with
-- their shapes and materials, and lights, in the order in which the code makes them. A colour is the
-- literal of the code.
pub mod Globe
pub mod Column
use surakshanet.Base.{ℕ, String, Bool, true, false, Option, none, List, [], ◌∷◌}
use surakshanet.Studio.{Vec, Space, zero_vec}
use surakshanet.Studio.Sphere.{minus_ratio}

pub data Shape (F : Type 0) : Type 0 where
  sphere_geometry : F → ℕ → ℕ → Shape F
  icosahedron_geometry : F → ℕ → Shape F
  circle_geometry : F → ℕ → Shape F
  box_geometry : F → F → F → Shape F
  torus_geometry : F → F → ℕ → ℕ → Shape F
  cone_geometry : F → F → ℕ → Shape F

-- The value of an option of a material or a renderer.
pub data Setting (F : Type 0) : Type 0 where
  amount : F → Setting F
  flag : Bool → Setting F
  color constant : String → Setting F

abbrev pub Settings : Type 0 → Type 0
Settings F = List (String × Setting F)

pub record Material (F : Type 0) : Type 0 where
  pub kind : String
  pub settings : Settings F

pub record Mesh (F : Type 0) : Type 0 where
  pub name : String
  -- what it is added to
  pub parent : String
  pub shape : Shape F
  pub material : Material F
  pub position : Vec F
  pub rotation : Vec F
  pub cast_shadow : Bool

pub record Light (F : Type 0) : Type 0 where
  pub kind : String
  pub color : String
  pub intensity : F
  pub distance : Option F
  pub position : Vec F
  pub cast_shadow : Bool

-- `new THREE.PerspectiveCamera(fov, aspect, near, far)`, and where it stands.
pub record Camera (F : Type 0) : Type 0 where
  pub fov : F
  pub aspect : F
  pub near : F
  pub far : F
  pub position : Vec F

abbrev pub vec : {F : Type 0} → F → F → F → Vec F
vec x y z = record { x = x; y = y; z = z }

module _ {F : Type 0} (sp : Space F) where
  -- A mesh that is not turned and casts no shadow.
  abbrev pub mesh : String → String → Shape F → Material F → Vec F → Mesh F
  mesh name parent shape material position = record {
    name = name;
    parent = parent;
    shape = shape;
    material = material;
    position = position;
    rotation = zero_vec sp;
    cast_shadow = false;
  }

  abbrev pub light : String → String → F → Vec F → Light F
  light kind hue intensity position = record {
    kind = kind;
    color = hue;
    intensity = intensity;
    distance = none;
    position = position;
    cast_shadow = false;
  }

  -- `-a / b`
  abbrev pub neg : ℕ → ℕ → F
  neg a b = minus_ratio sp a b

  -- The white material of the highlights, with its opacity in hundredths.
  abbrev pub highlight_material : ℕ → Material F
  highlight_material opacity = record {
    kind = "MeshBasicMaterial";
    settings =
        ("color", color "0xFFFFFF")
        ∷ ("transparent", flag true)
        ∷ ("opacity", amount (sp.ratio opacity 100))
        ∷ ("depthWrite", flag false)
        ∷ [];
  }

  -- A highlight of a ball of radius `r`: its size and its place in hundredths of `r`.
  abbrev pub highlight : String → String → F → ℕ → ℕ → ℕ → Vec F → Mesh F
  highlight name parent r size segments opacity place =
      mesh name parent (circle_geometry (sp.times r (sp.ratio size 100)) segments)
        (highlight_material opacity)
        (vec (sp.times r place.x) (sp.times r place.y) (sp.times r place.z))
