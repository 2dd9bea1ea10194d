-- ===== src/Operators/Dps/Paint.antt =====
-- Headers/AppKit/DPSOperators.h: the operators on paths. Each calls its function in the table of
-- the context.
pub mod Sent
use libs_gui.Base.{false, ℕ, ℤ, [], ◌∷◌, Option, none, some, ◌≡◌, refl}
use libs_gui.Operators.Values.{
  String, of_float, of_integer, of_pointer, of_object, Pointer, Object, Effect, Method, Message,
  msg_send,
}
use libs_gui.Operators.Methods.{initialize_method_table}
use libs_gui.Operators.Context.{Context, via, via_function, initialized}
use libs_gui.Operators.Methods.Other.{initialize_other}
use libs_gui.Operators.Methods.Paint.{initialize_paint}

-- The operators with their arguments.
pub data PaintOperator (F : Type 0) : Type 0 where
  arc : F → F → F → F → F → PaintOperator F
  arcn : F → F → F → F → F → PaintOperator F
  arct : F → F → F → F → F → PaintOperator F
  clip : PaintOperator F
  closepath : PaintOperator F
  curveto : F → F → F → F → F → F → PaintOperator F
  eoclip : PaintOperator F
  eofill : PaintOperator F
  fill : PaintOperator F
  flattenpath : PaintOperator F
  initclip : PaintOperator F
  lineto : F → F → PaintOperator F
  moveto : F → F → PaintOperator F
  newpath : PaintOperator F
  pathbbox : Pointer → Pointer → Pointer → Pointer → PaintOperator F
  rcurveto : F → F → F → F → F → F → PaintOperator F
  rectclip : F → F → F → F → PaintOperator F
  rectfill : F → F → F → F → PaintOperator F
  rectstroke : F → F → F → F → PaintOperator F
  reversepath : PaintOperator F
  rlineto : F → F → PaintOperator F
  rmoveto : F → F → PaintOperator F
  stroke : PaintOperator F
  shfill : Object → PaintOperator F
  send_bezier_path : Object → PaintOperator F
  rect_clip_list : Pointer → ℤ → PaintOperator F
  rect_fill_list : Pointer → ℤ → PaintOperator F

module _ {F S : Type 0} where
  unfoldable pub dps_arc : Option (Context F S) → F → F → F → F → F → Effect F S
  dps_arc ctxt x y r angle1 angle2 =
      via ctxt λ table self. table.paint.dps_arc self "DPSarc:::::" x y r angle1 angle2

  unfoldable pub dps_arcn : Option (Context F S) → F → F → F → F → F → Effect F S
  dps_arcn ctxt x y r angle1 angle2 =
      via ctxt λ table self. table.paint.dps_arcn self "DPSarcn:::::" x y r angle1 angle2

  unfoldable pub dps_arct : Option (Context F S) → F → F → F → F → F → Effect F S
  dps_arct ctxt x1 y1 x2 y2 r =
      via ctxt λ table self. table.paint.dps_arct self "DPSarct:::::" x1 y1 x2 y2 r

  unfoldable pub dps_clip : Option (Context F S) → Effect F S
  dps_clip ctxt = via ctxt λ table self. table.paint.dps_clip self "DPSclip"

  unfoldable pub dps_closepath : Option (Context F S) → Effect F S
  dps_closepath ctxt = via ctxt λ table self. table.paint.dps_closepath self "DPSclosepath"

  unfoldable pub dps_curveto : Option (Context F S) → F → F → F → F → F → F → Effect F S
  dps_curveto ctxt x1 y1 x2 y2 x3 y3 =
      via ctxt λ table self. table.paint.dps_curveto self "DPScurveto::::::" x1 y1 x2 y2 x3 y3

  unfoldable pub dps_eoclip : Option (Context F S) → Effect F S
  dps_eoclip ctxt = via ctxt λ table self. table.paint.dps_eoclip self "DPSeoclip"

  unfoldable pub dps_eofill : Option (Context F S) → Effect F S
  dps_eofill ctxt = via ctxt λ table self. table.paint.dps_eofill self "DPSeofill"

  unfoldable pub dps_fill : Option (Context F S) → Effect F S
  dps_fill ctxt = via ctxt λ table self. table.paint.dps_fill self "DPSfill"

  unfoldable pub dps_flattenpath : Option (Context F S) → Effect F S
  dps_flattenpath ctxt = via ctxt λ table self. table.paint.dps_flattenpath self "DPSflattenpath"

  unfoldable pub dps_initclip : Option (Context F S) → Effect F S
  dps_initclip ctxt = via ctxt λ table self. table.paint.dps_initclip self "DPSinitclip"

  unfoldable pub dps_lineto : Option (Context F S) → F → F → Effect F S
  dps_lineto ctxt x y = via ctxt λ table self. table.paint.dps_lineto self "DPSlineto::" x y

  unfoldable pub dps_moveto : Option (Context F S) → F → F → Effect F S
  dps_moveto ctxt x y = via ctxt λ table self. table.paint.dps_moveto self "DPSmoveto::" x y

  unfoldable pub dps_newpath : Option (Context F S) → Effect F S
  dps_newpath ctxt = via ctxt λ table self. table.paint.dps_newpath self "DPSnewpath"

  unfoldable pub dps_pathbbox :
      Option (Context F S) → Pointer → Pointer → Pointer → Pointer → Effect F S
  dps_pathbbox ctxt llx lly urx ury =
      via ctxt λ table self. table.paint.dps_pathbbox self "DPSpathbbox::::" llx lly urx ury

  unfoldable pub dps_rcurveto : Option (Context F S) → F → F → F → F → F → F → Effect F S
  dps_rcurveto ctxt x1 y1 x2 y2 x3 y3 =
      via ctxt λ table self. table.paint.dps_rcurveto self "DPSrcurveto::::::" x1 y1 x2 y2 x3 y3

  unfoldable pub dps_rectclip : Option (Context F S) → F → F → F → F → Effect F S
  dps_rectclip ctxt x y w h =
      via ctxt λ table self. table.paint.dps_rectclip self "DPSrectclip::::" x y w h

  unfoldable pub dps_rectfill : Option (Context F S) → F → F → F → F → Effect F S
  dps_rectfill ctxt x y w h =
      via ctxt λ table self. table.paint.dps_rectfill self "DPSrectfill::::" x y w h

  unfoldable pub dps_rectstroke : Option (Context F S) → F → F → F → F → Effect F S
  dps_rectstroke ctxt x y w h =
      via ctxt λ table self. table.paint.dps_rectstroke self "DPSrectstroke::::" x y w h

  unfoldable pub dps_reversepath : Option (Context F S) → Effect F S
  dps_reversepath ctxt = via ctxt λ table self. table.paint.dps_reversepath self "DPSreversepath"

  unfoldable pub dps_rlineto : Option (Context F S) → F → F → Effect F S
  dps_rlineto ctxt x y = via ctxt λ table self. table.paint.dps_rlineto self "DPSrlineto::" x y

  unfoldable pub dps_rmoveto : Option (Context F S) → F → F → Effect F S
  dps_rmoveto ctxt x y = via ctxt λ table self. table.paint.dps_rmoveto self "DPSrmoveto::" x y

  unfoldable pub dps_stroke : Option (Context F S) → Effect F S
  dps_stroke ctxt = via ctxt λ table self. table.paint.dps_stroke self "DPSstroke"

  unfoldable pub dps_shfill : Option (Context F S) → Object → Effect F S
  dps_shfill ctxt shader_dictionary =
      via ctxt λ table self. table.other.dps_shfill self "DPSshfill:" shader_dictionary

  unfoldable pub gs_send_bezier_path : Option (Context F S) → Object → Effect F S
  gs_send_bezier_path ctxt path =
      via ctxt λ table self. table.paint.gs_send_bezier_path self "GSSendBezierPath:" path

  unfoldable pub gs_rect_clip_list : Option (Context F S) → Pointer → ℤ → Effect F S
  gs_rect_clip_list ctxt rects count =
      via ctxt λ table self. table.paint.gs_rect_clip_list self "GSRectClipList::" rects count

  unfoldable pub gs_rect_fill_list : Option (Context F S) → Pointer → ℤ → Effect F S
  gs_rect_fill_list ctxt rects count =
      via ctxt λ table self. table.paint.gs_rect_fill_list self "GSRectFillList::" rects count

  -- The call of an operator.
  unfoldable pub perform_paint : PaintOperator F → Option (Context F S) → Effect F S
  perform_paint (arc x y r angle1 angle2) ctxt = dps_arc ctxt x y r angle1 angle2
  perform_paint (arcn x y r angle1 angle2) ctxt = dps_arcn ctxt x y r angle1 angle2
  perform_paint (arct x1 y1 x2 y2 r) ctxt = dps_arct ctxt x1 y1 x2 y2 r
  perform_paint clip ctxt = dps_clip ctxt
  perform_paint closepath ctxt = dps_closepath ctxt
  perform_paint (curveto x1 y1 x2 y2 x3 y3) ctxt = dps_curveto ctxt x1 y1 x2 y2 x3 y3
  perform_paint eoclip ctxt = dps_eoclip ctxt
  perform_paint eofill ctxt = dps_eofill ctxt
  perform_paint fill ctxt = dps_fill ctxt
  perform_paint flattenpath ctxt = dps_flattenpath ctxt
  perform_paint initclip ctxt = dps_initclip ctxt
  perform_paint (lineto x y) ctxt = dps_lineto ctxt x y
  perform_paint (moveto x y) ctxt = dps_moveto ctxt x y
  perform_paint newpath ctxt = dps_newpath ctxt
  perform_paint (pathbbox llx lly urx ury) ctxt = dps_pathbbox ctxt llx lly urx ury
  perform_paint (rcurveto x1 y1 x2 y2 x3 y3) ctxt = dps_rcurveto ctxt x1 y1 x2 y2 x3 y3
  perform_paint (rectclip x y w h) ctxt = dps_rectclip ctxt x y w h
  perform_paint (rectfill x y w h) ctxt = dps_rectfill ctxt x y w h
  perform_paint (rectstroke x y w h) ctxt = dps_rectstroke ctxt x y w h
  perform_paint reversepath ctxt = dps_reversepath ctxt
  perform_paint (rlineto x y) ctxt = dps_rlineto ctxt x y
  perform_paint (rmoveto x y) ctxt = dps_rmoveto ctxt x y
  perform_paint stroke ctxt = dps_stroke ctxt
  perform_paint (shfill shader_dictionary) ctxt = dps_shfill ctxt shader_dictionary
  perform_paint (send_bezier_path path) ctxt = gs_send_bezier_path ctxt path
  perform_paint (rect_clip_list rects count) ctxt = gs_rect_clip_list ctxt rects count
  perform_paint (rect_fill_list rects count) ctxt = gs_rect_fill_list ctxt rects count

-- The message that the operator stands for.
unfoldable pub paint_message : {F : Type 0} → PaintOperator F → Message F
paint_message (arc x y r angle1 angle2) = record {
  selector = "DPSarc:::::";
  arguments = of_float x ∷ of_float y ∷ of_float r ∷ of_float angle1 ∷ of_float angle2 ∷ [];
  is_function = false;
}
paint_message (arcn x y r angle1 angle2) = record {
  selector = "DPSarcn:::::";
  arguments = of_float x ∷ of_float y ∷ of_float r ∷ of_float angle1 ∷ of_float angle2 ∷ [];
  is_function = false;
}
paint_message (arct x1 y1 x2 y2 r) = record {
  selector = "DPSarct:::::";
  arguments = of_float x1 ∷ of_float y1 ∷ of_float x2 ∷ of_float y2 ∷ of_float r ∷ [];
  is_function = false;
}
paint_message clip = record { selector = "DPSclip"; arguments = []; is_function = false }
paint_message closepath = record { selector = "DPSclosepath"; arguments = []; is_function = false }
paint_message (curveto x1 y1 x2 y2 x3 y3) = record {
  selector = "DPScurveto::::::";
  arguments =
      of_float x1 ∷ of_float y1 ∷ of_float x2 ∷ of_float y2 ∷ of_float x3 ∷ of_float y3 ∷ [];
  is_function = false;
}
paint_message eoclip = record { selector = "DPSeoclip"; arguments = []; is_function = false }
paint_message eofill = record { selector = "DPSeofill"; arguments = []; is_function = false }
paint_message fill = record { selector = "DPSfill"; arguments = []; is_function = false }
paint_message flattenpath = record {
  selector = "DPSflattenpath";
  arguments = [];
  is_function = false;
}
paint_message initclip = record { selector = "DPSinitclip"; arguments = []; is_function = false }
paint_message (lineto x y) = record {
  selector = "DPSlineto::";
  arguments = of_float x ∷ of_float y ∷ [];
  is_function = false;
}
paint_message (moveto x y) = record {
  selector = "DPSmoveto::";
  arguments = of_float x ∷ of_float y ∷ [];
  is_function = false;
}
paint_message newpath = record { selector = "DPSnewpath"; arguments = []; is_function = false }
paint_message (pathbbox llx lly urx ury) = record {
  selector = "DPSpathbbox::::";
  arguments = of_pointer llx ∷ of_pointer lly ∷ of_pointer urx ∷ of_pointer ury ∷ [];
  is_function = false;
}
paint_message (rcurveto x1 y1 x2 y2 x3 y3) = record {
  selector = "DPSrcurveto::::::";
  arguments =
      of_float x1 ∷ of_float y1 ∷ of_float x2 ∷ of_float y2 ∷ of_float x3 ∷ of_float y3 ∷ [];
  is_function = false;
}
paint_message (rectclip x y w h) = record {
  selector = "DPSrectclip::::";
  arguments = of_float x ∷ of_float y ∷ of_float w ∷ of_float h ∷ [];
  is_function = false;
}
paint_message (rectfill x y w h) = record {
  selector = "DPSrectfill::::";
  arguments = of_float x ∷ of_float y ∷ of_float w ∷ of_float h ∷ [];
  is_function = false;
}
paint_message (rectstroke x y w h) = record {
  selector = "DPSrectstroke::::";
  arguments = of_float x ∷ of_float y ∷ of_float w ∷ of_float h ∷ [];
  is_function = false;
}
paint_message reversepath = record {
  selector = "DPSreversepath";
  arguments = [];
  is_function = false;
}
paint_message (rlineto x y) = record {
  selector = "DPSrlineto::";
  arguments = of_float x ∷ of_float y ∷ [];
  is_function = false;
}
paint_message (rmoveto x y) = record {
  selector = "DPSrmoveto::";
  arguments = of_float x ∷ of_float y ∷ [];
  is_function = false;
}
paint_message stroke = record { selector = "DPSstroke"; arguments = []; is_function = false }
paint_message (shfill shader_dictionary) = record {
  selector = "DPSshfill:";
  arguments = of_object shader_dictionary ∷ [];
  is_function = false;
}
paint_message (send_bezier_path path) = record {
  selector = "GSSendBezierPath:";
  arguments = of_object path ∷ [];
  is_function = false;
}
paint_message (rect_clip_list rects count) = record {
  selector = "GSRectClipList::";
  arguments = of_pointer rects ∷ of_integer count ∷ [];
  is_function = false;
}
paint_message (rect_fill_list rects count) = record {
  selector = "GSRectFillList::";
  arguments = of_pointer rects ∷ of_integer count ∷ [];
  is_function = false;
}
