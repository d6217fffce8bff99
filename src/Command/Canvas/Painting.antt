-- ===== src/Command/Canvas/Painting.antt =====
-- The drawing context of frontend/dashboard/src/components/CommandCenter/CityTrafficCanvas.tsx as the
-- browser keeps it, and what a list of commands paints in it.
use surakshanet.Base.{
  ℕ, ◌≡◌, refl, ap, ◌∙◌, sym, String, Option, none, some, List, [], ◌∷◌, ◌++◌, ◌==◌, if◌then◌else◌,
}
use surakshanet.Command.Canvas.Drawing.{
  Cmd, fill_style, stroke_style, line_cap, shadow_color, font, line_width, shadow_blur, begin_path,
  stroke, fill, move_to, line_to, arc, fill_rect, fill_text,
}

-- A piece of the current path.
pub data Piece : Type 0 where
  segment : ℕ → ℕ → ℕ → ℕ → Piece
  circle : ℕ → ℕ → ℕ → Piece

-- `CanvasRenderingContext2D` as far as it is used, with the current path and the point it is at.
pub record Context : Type 0 where
  pub fill : String
  pub stroke : String
  pub width : ℕ
  pub cap : String
  pub shadow : String
  pub blur : ℕ
  pub font : String
  pub path : List Piece
  pub at_x : ℕ
  pub at_y : ℕ

-- The colour and the blur of a shadow, where there is one.
abbrev pub Shadow : Type 0
Shadow = Option (String × ℕ)

pub data Paint : Type 0 where
  -- the path, the colour, the width and the caps of the line
  stroked : List Piece → String → ℕ → String → Shadow → Paint
  filled : List Piece → String → Shadow → Paint
  rectangle : ℕ → ℕ → ℕ → ℕ → String → Shadow → Paint
  lettered : String → ℕ → ℕ → String → String → Shadow → Paint

abbrev shadow_of : Context → Shadow
shadow_of c = if c.blur == 0 then none else some (c.shadow, c.blur)

-- What a command makes of the context.
unfoldable pub obey : Cmd → Context → Context
obey (fill_style s) c = record c { fill = s }
obey (stroke_style s) c = record c { stroke = s }
obey (line_cap s) c = record c { cap = s }
obey (shadow_color s) c = record c { shadow = s }
obey (font s) c = record c { font = s }
obey (line_width n) c = record c { width = n }
obey (shadow_blur n) c = record c { blur = n }
obey begin_path c = record c { path = [] }
obey (move_to x y) c = record c { at_x = x; at_y = y }
obey (line_to x y) c = record c {
  path = c.path ++ segment c.at_x c.at_y x y ∷ [];
  at_x = x;
  at_y = y;
}
obey (arc x y r) c = record c { path = c.path ++ circle x y r ∷ [] }
obey stroke c = c
obey fill c = c
obey (fill_rect x y w h) c = c
obey (fill_text s x y) c = c

-- What a command paints.
unfoldable pub paints : Cmd → Context → List Paint
paints stroke c = stroked c.path c.stroke c.width c.cap (shadow_of c) ∷ []
paints fill c = filled c.path c.fill (shadow_of c) ∷ []
paints (fill_rect x y w h) c = rectangle x y w h c.fill (shadow_of c) ∷ []
paints (fill_text s x y) c = lettered s x y c.font c.fill (shadow_of c) ∷ []
paints _ c = []

unfoldable pub after : List Cmd → Context → Context
after [] c = c
after (d ∷ ds) c = after ds (obey d c)

unfoldable pub painted : List Cmd → Context → List Paint
painted [] c = []
painted (d ∷ ds) c = paints d c ++ painted ds (obey d c)

append_assoc : (xs ys zs : List Paint) → (xs ++ ys) ++ zs ≡ xs ++ (ys ++ zs)
append_assoc [] ys zs = refl
append_assoc (x ∷ xs) ys zs = ap (λ l. x ∷ l) (append_assoc xs ys zs)

pub after-append : (ds es : List Cmd) (c : Context) → after (ds ++ es) c ≡ after es (after ds c)
unfolding after
after-append [] es c = refl
after-append (d ∷ ds) es c = after-append ds es (obey d c)

pub painted-append :
    (ds es : List Cmd) (c : Context)
    → painted (ds ++ es) c ≡ painted ds c ++ painted es (after ds c)
unfolding painted after
painted-append [] es c = refl
painted-append (d ∷ ds) es c =
    ap (λ l. paints d c ++ l) (painted-append ds es (obey d c))
    ∙ sym (append_assoc (paints d c) (painted ds (obey d c)) (painted es (after ds (obey d c))))
