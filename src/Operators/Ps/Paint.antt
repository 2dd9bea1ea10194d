-- ===== src/Operators/Ps/Paint.antt =====
-- Headers/AppKit/PSOperators.h: the operators on paths, on the context that is current.
use libs_gui.Base.{Option, ◌≡◌, refl}
use libs_gui.Operators.Values.{Pointer, Object, Effect}
use libs_gui.Operators.Context.{Context}
use libs_gui.Operators.Dps.Paint.{
  PaintOperator, perform_paint, dps_arc, dps_arcn, dps_arct, dps_clip, dps_closepath, dps_curveto,
  dps_eoclip, dps_eofill, dps_fill, dps_flattenpath, dps_initclip, dps_lineto, dps_moveto,
  dps_newpath, dps_pathbbox, dps_rcurveto, dps_rectclip, dps_rectfill, dps_rectstroke,
  dps_reversepath, dps_rlineto, dps_rmoveto, dps_stroke, dps_shfill,
}

pub data PsPaintOperator (F : Type 0) : Type 0 where
  arc : F → F → F → F → F → PsPaintOperator F
  arcn : F → F → F → F → F → PsPaintOperator F
  arct : F → F → F → F → F → PsPaintOperator F
  clip : PsPaintOperator F
  closepath : PsPaintOperator F
  curveto : F → F → F → F → F → F → PsPaintOperator F
  eoclip : PsPaintOperator F
  eofill : PsPaintOperator F
  fill : PsPaintOperator F
  flattenpath : PsPaintOperator F
  initclip : PsPaintOperator F
  lineto : F → F → PsPaintOperator F
  moveto : F → F → PsPaintOperator F
  newpath : PsPaintOperator F
  pathbbox : Pointer → Pointer → Pointer → Pointer → PsPaintOperator F
  rcurveto : F → F → F → F → F → F → PsPaintOperator F
  rectclip : F → F → F → F → PsPaintOperator F
  rectfill : F → F → F → F → PsPaintOperator F
  rectstroke : F → F → F → F → PsPaintOperator F
  reversepath : PsPaintOperator F
  rlineto : F → F → PsPaintOperator F
  rmoveto : F → F → PsPaintOperator F
  stroke : PsPaintOperator F
  shfill : Object → PsPaintOperator F

-- `DEFCTXT` is the current context of the state.
module _ {F S : Type 0} (current_context : S → Option (Context F S)) where
  unfoldable pub ps_arc : F → F → F → F → F → Effect F S
  ps_arc x y r angle1 angle2 state = dps_arc (current_context state) x y r angle1 angle2 state

  unfoldable pub ps_arcn : F → F → F → F → F → Effect F S
  ps_arcn x y r angle1 angle2 state = dps_arcn (current_context state) x y r angle1 angle2 state

  unfoldable pub ps_arct : F → F → F → F → F → Effect F S
  ps_arct x1 y1 x2 y2 r state = dps_arct (current_context state) x1 y1 x2 y2 r state

  unfoldable pub ps_clip : Effect F S
  ps_clip state = dps_clip (current_context state) state

  unfoldable pub ps_closepath : Effect F S
  ps_closepath state = dps_closepath (current_context state) state

  unfoldable pub ps_curveto : F → F → F → F → F → F → Effect F S
  ps_curveto x1 y1 x2 y2 x3 y3 state = dps_curveto (current_context state) x1 y1 x2 y2 x3 y3 state

  unfoldable pub ps_eoclip : Effect F S
  ps_eoclip state = dps_eoclip (current_context state) state

  unfoldable pub ps_eofill : Effect F S
  ps_eofill state = dps_eofill (current_context state) state

  unfoldable pub ps_fill : Effect F S
  ps_fill state = dps_fill (current_context state) state

  unfoldable pub ps_flattenpath : Effect F S
  ps_flattenpath state = dps_flattenpath (current_context state) state

  unfoldable pub ps_initclip : Effect F S
  ps_initclip state = dps_initclip (current_context state) state

  unfoldable pub ps_lineto : F → F → Effect F S
  ps_lineto x y state = dps_lineto (current_context state) x y state

  unfoldable pub ps_moveto : F → F → Effect F S
  ps_moveto x y state = dps_moveto (current_context state) x y state

  unfoldable pub ps_newpath : Effect F S
  ps_newpath state = dps_newpath (current_context state) state

  unfoldable pub ps_pathbbox : Pointer → Pointer → Pointer → Pointer → Effect F S
  ps_pathbbox llx lly urx ury state = dps_pathbbox (current_context state) llx lly urx ury state

  unfoldable pub ps_rcurveto : F → F → F → F → F → F → Effect F S
  ps_rcurveto x1 y1 x2 y2 x3 y3 state = dps_rcurveto (current_context state) x1 y1 x2 y2 x3 y3 state

  unfoldable pub ps_rectclip : F → F → F → F → Effect F S
  ps_rectclip x y w h state = dps_rectclip (current_context state) x y w h state

  unfoldable pub ps_rectfill : F → F → F → F → Effect F S
  ps_rectfill x y w h state = dps_rectfill (current_context state) x y w h state

  unfoldable pub ps_rectstroke : F → F → F → F → Effect F S
  ps_rectstroke x y w h state = dps_rectstroke (current_context state) x y w h state

  unfoldable pub ps_reversepath : Effect F S
  ps_reversepath state = dps_reversepath (current_context state) state

  unfoldable pub ps_rlineto : F → F → Effect F S
  ps_rlineto x y state = dps_rlineto (current_context state) x y state

  unfoldable pub ps_rmoveto : F → F → Effect F S
  ps_rmoveto x y state = dps_rmoveto (current_context state) x y state

  unfoldable pub ps_stroke : Effect F S
  ps_stroke state = dps_stroke (current_context state) state

  unfoldable pub ps_shfill : Object → Effect F S
  ps_shfill shader_dictionary state = dps_shfill (current_context state) shader_dictionary state

  unfoldable pub perform_ps_paint : PsPaintOperator F → Effect F S
  perform_ps_paint (arc x y r angle1 angle2) = ps_arc x y r angle1 angle2
  perform_ps_paint (arcn x y r angle1 angle2) = ps_arcn x y r angle1 angle2
  perform_ps_paint (arct x1 y1 x2 y2 r) = ps_arct x1 y1 x2 y2 r
  perform_ps_paint clip = ps_clip
  perform_ps_paint closepath = ps_closepath
  perform_ps_paint (curveto x1 y1 x2 y2 x3 y3) = ps_curveto x1 y1 x2 y2 x3 y3
  perform_ps_paint eoclip = ps_eoclip
  perform_ps_paint eofill = ps_eofill
  perform_ps_paint fill = ps_fill
  perform_ps_paint flattenpath = ps_flattenpath
  perform_ps_paint initclip = ps_initclip
  perform_ps_paint (lineto x y) = ps_lineto x y
  perform_ps_paint (moveto x y) = ps_moveto x y
  perform_ps_paint newpath = ps_newpath
  perform_ps_paint (pathbbox llx lly urx ury) = ps_pathbbox llx lly urx ury
  perform_ps_paint (rcurveto x1 y1 x2 y2 x3 y3) = ps_rcurveto x1 y1 x2 y2 x3 y3
  perform_ps_paint (rectclip x y w h) = ps_rectclip x y w h
  perform_ps_paint (rectfill x y w h) = ps_rectfill x y w h
  perform_ps_paint (rectstroke x y w h) = ps_rectstroke x y w h
  perform_ps_paint reversepath = ps_reversepath
  perform_ps_paint (rlineto x y) = ps_rlineto x y
  perform_ps_paint (rmoveto x y) = ps_rmoveto x y
  perform_ps_paint stroke = ps_stroke
  perform_ps_paint (shfill shader_dictionary) = ps_shfill shader_dictionary

-- The operator of DPSOperators.h with the same name and arguments.
unfoldable pub as_paint_operator : {F : Type 0} → PsPaintOperator F → PaintOperator F
as_paint_operator (arc x y r angle1 angle2) = PaintOperator.arc x y r angle1 angle2
as_paint_operator (arcn x y r angle1 angle2) = PaintOperator.arcn x y r angle1 angle2
as_paint_operator (arct x1 y1 x2 y2 r) = PaintOperator.arct x1 y1 x2 y2 r
as_paint_operator clip = PaintOperator.clip
as_paint_operator closepath = PaintOperator.closepath
as_paint_operator (curveto x1 y1 x2 y2 x3 y3) = PaintOperator.curveto x1 y1 x2 y2 x3 y3
as_paint_operator eoclip = PaintOperator.eoclip
as_paint_operator eofill = PaintOperator.eofill
as_paint_operator fill = PaintOperator.fill
as_paint_operator flattenpath = PaintOperator.flattenpath
as_paint_operator initclip = PaintOperator.initclip
as_paint_operator (lineto x y) = PaintOperator.lineto x y
as_paint_operator (moveto x y) = PaintOperator.moveto x y
as_paint_operator newpath = PaintOperator.newpath
as_paint_operator (pathbbox llx lly urx ury) = PaintOperator.pathbbox llx lly urx ury
as_paint_operator (rcurveto x1 y1 x2 y2 x3 y3) = PaintOperator.rcurveto x1 y1 x2 y2 x3 y3
as_paint_operator (rectclip x y w h) = PaintOperator.rectclip x y w h
as_paint_operator (rectfill x y w h) = PaintOperator.rectfill x y w h
as_paint_operator (rectstroke x y w h) = PaintOperator.rectstroke x y w h
as_paint_operator reversepath = PaintOperator.reversepath
as_paint_operator (rlineto x y) = PaintOperator.rlineto x y
as_paint_operator (rmoveto x y) = PaintOperator.rmoveto x y
as_paint_operator stroke = PaintOperator.stroke
as_paint_operator (shfill shader_dictionary) = PaintOperator.shfill shader_dictionary

pub perform_ps_paint_lem :
    {F S : Type 0} (current_context : S → Option (Context F S)) (o : PsPaintOperator F) (state : S)
    → perform_ps_paint current_context o state
      ≡ perform_paint (as_paint_operator o) (current_context state) state
unfolding perform_ps_paint perform_paint as_paint_operator ps_arc ps_arcn ps_arct ps_clip
    ps_closepath ps_curveto ps_eoclip ps_eofill ps_fill ps_flattenpath ps_initclip ps_lineto
    ps_moveto ps_newpath ps_pathbbox ps_rcurveto ps_rectclip ps_rectfill ps_rectstroke
    ps_reversepath ps_rlineto ps_rmoveto ps_stroke ps_shfill
perform_ps_paint_lem current_context (arc x y r angle1 angle2) state = refl
perform_ps_paint_lem current_context (arcn x y r angle1 angle2) state = refl
perform_ps_paint_lem current_context (arct x1 y1 x2 y2 r) state = refl
perform_ps_paint_lem current_context clip state = refl
perform_ps_paint_lem current_context closepath state = refl
perform_ps_paint_lem current_context (curveto x1 y1 x2 y2 x3 y3) state = refl
perform_ps_paint_lem current_context eoclip state = refl
perform_ps_paint_lem current_context eofill state = refl
perform_ps_paint_lem current_context fill state = refl
perform_ps_paint_lem current_context flattenpath state = refl
perform_ps_paint_lem current_context initclip state = refl
perform_ps_paint_lem current_context (lineto x y) state = refl
perform_ps_paint_lem current_context (moveto x y) state = refl
perform_ps_paint_lem current_context newpath state = refl
perform_ps_paint_lem current_context (pathbbox llx lly urx ury) state = refl
perform_ps_paint_lem current_context (rcurveto x1 y1 x2 y2 x3 y3) state = refl
perform_ps_paint_lem current_context (rectclip x y w h) state = refl
perform_ps_paint_lem current_context (rectfill x y w h) state = refl
perform_ps_paint_lem current_context (rectstroke x y w h) state = refl
perform_ps_paint_lem current_context reversepath state = refl
perform_ps_paint_lem current_context (rlineto x y) state = refl
perform_ps_paint_lem current_context (rmoveto x y) state = refl
perform_ps_paint_lem current_context stroke state = refl
perform_ps_paint_lem current_context (shfill shader_dictionary) state = refl
