-- ===== src/Operators/Dps/Paint/Sent.antt =====
-- Headers/AppKit/DPSOperators.h: the operators of the parent module and their messages.
use libs_gui.Base.{ℕ, some, ◌≡◌, refl}
use libs_gui.Operators.Values.{String, Method, msg_send}
use libs_gui.Operators.Methods.{initialize_method_table}
use libs_gui.Operators.Context.{via, via_function, initialized}
use libs_gui.Operators.Methods.Other.{initialize_other}
use libs_gui.Operators.Methods.Paint.{initialize_paint}
use libs_gui.Operators.Dps.Paint.{
  PaintOperator, arc, arcn, arct, clip, closepath, curveto, eoclip, eofill, fill, flattenpath,
  initclip, lineto, moveto, newpath, pathbbox, rcurveto, rectclip, rectfill, rectstroke,
  reversepath, rlineto, rmoveto, stroke, shfill, send_bezier_path, rect_clip_list, rect_fill_list,
  dps_arc, dps_arcn, dps_arct, dps_clip, dps_closepath, dps_curveto, dps_eoclip, dps_eofill,
  dps_fill, dps_flattenpath, dps_initclip, dps_lineto, dps_moveto, dps_newpath, dps_pathbbox,
  dps_rcurveto, dps_rectclip, dps_rectfill, dps_rectstroke, dps_reversepath, dps_rlineto,
  dps_rmoveto, dps_stroke, dps_shfill, gs_send_bezier_path, gs_rect_clip_list, gs_rect_fill_list,
  perform_paint, paint_message,
}

pub perform_paint-sent :
    {F S : Type 0} (get_imp : ℕ → String → Method F S) (o : PaintOperator F) (id class : ℕ)
    (state : S)
    → perform_paint o (some (initialized get_imp id class)) state
      ≡ msg_send get_imp (some (id, class)) (paint_message o) state
unfolding perform_paint paint_message initialized msg_send initialize_method_table initialize_other
    initialize_paint dps_arc dps_arcn dps_arct dps_clip dps_closepath dps_curveto dps_eoclip
    dps_eofill dps_fill dps_flattenpath dps_initclip dps_lineto dps_moveto dps_newpath dps_pathbbox
    dps_rcurveto dps_rectclip dps_rectfill dps_rectstroke dps_reversepath dps_rlineto dps_rmoveto
    dps_stroke dps_shfill gs_send_bezier_path gs_rect_clip_list gs_rect_fill_list via via_function
perform_paint-sent get_imp (arc x y r angle1 angle2) id class state = refl
perform_paint-sent get_imp (arcn x y r angle1 angle2) id class state = refl
perform_paint-sent get_imp (arct x1 y1 x2 y2 r) id class state = refl
perform_paint-sent get_imp clip id class state = refl
perform_paint-sent get_imp closepath id class state = refl
perform_paint-sent get_imp (curveto x1 y1 x2 y2 x3 y3) id class state = refl
perform_paint-sent get_imp eoclip id class state = refl
perform_paint-sent get_imp eofill id class state = refl
perform_paint-sent get_imp fill id class state = refl
perform_paint-sent get_imp flattenpath id class state = refl
perform_paint-sent get_imp initclip id class state = refl
perform_paint-sent get_imp (lineto x y) id class state = refl
perform_paint-sent get_imp (moveto x y) id class state = refl
perform_paint-sent get_imp newpath id class state = refl
perform_paint-sent get_imp (pathbbox llx lly urx ury) id class state = refl
perform_paint-sent get_imp (rcurveto x1 y1 x2 y2 x3 y3) id class state = refl
perform_paint-sent get_imp (rectclip x y w h) id class state = refl
perform_paint-sent get_imp (rectfill x y w h) id class state = refl
perform_paint-sent get_imp (rectstroke x y w h) id class state = refl
perform_paint-sent get_imp reversepath id class state = refl
perform_paint-sent get_imp (rlineto x y) id class state = refl
perform_paint-sent get_imp (rmoveto x y) id class state = refl
perform_paint-sent get_imp stroke id class state = refl
perform_paint-sent get_imp (shfill shader_dictionary) id class state = refl
perform_paint-sent get_imp (send_bezier_path path) id class state = refl
perform_paint-sent get_imp (rect_clip_list rects count) id class state = refl
perform_paint-sent get_imp (rect_fill_list rects count) id class state = refl
