-- ===== src/Lib.antt =====
-- Hikari Sakura, a stacking Wayland compositor with tiling: what its windows' bookkeeping promises.
--
-- The program keeps every window (a view) in several intrusive lists at once: its sheet's, its
-- group's and its output's, and, while it is visible, the server's, its group's visible one and its
-- workspace's. A workspace (one to an output) has ten sheets, displays one of them, and always the
-- sheet 0 with it. Mapping, hiding, grouping, sheet switching and locking all rewrite these lists and
-- the flags of the views; geometry.c places the boxes.
--
-- The module Prelude holds the numbers, lists and integers that the other parts share (an `int` is an integer
-- without overflow, which is undefined in C; coordinates are pixels).
--
-- The modules of Geometry model src/geometry.c and include/hikari/geometry.h. `split_vertical` and
-- `split_horizontal` are the SPLIT macro, `scale_dynamic_width` and `_height` DYNAMIC_SCALE,
-- `constrain_absolute`, `constrain_relative`, `constrain_size` and `shrink` the functions
-- `hikari_geometry_` of these names, `position_x` and `position_y` the nine position functions.
-- What C's `double` does is the interface Geometry/Double.antt, which the scales take.
--
-- The modules of Stacking model src/view.c, src/lock_mode.c, and the focus of src/workspace.c and src/normal_mode.c.
-- Links is wl_list as lists without repetition (`wl_list_remove` takes an id out); State is the
-- state and its writers (`show`, `hide`, `raise`, `lower`, `group_view` are `hikari_view_` of these
-- names, the helpers have view.c's names); Pointer the refocus under the pointer, for which what
-- wlroots finds there is the parameter `hit`, with the hypothesis `Sees`; Mapping is
-- `hikari_view_map` and `hikari_view_unmap`; Lock is lock_mode.c's entering and cancelling; Walk is
-- `wl_list_for_each_reverse_safe` over a list that the loop's body reorders. Membership, Visibility
-- and Invariant state the invariant `Inv`: the lists hold exactly the views whose fields say so,
-- once each, and the focus is on visible views. `clear_focus` and `hide` are those of normal mode, in which sheets are
-- switched and cleared; for `hikari_view_unmap`, which comes in any mode, `clear_focus_in` and `hide_in` have the change of
-- mode too, which Dangling is about. Order says where a raised or lowered view stands.
--
-- The modules of Layout model the layouts of src/sheet.c and src/split.c. Plan is what they read and
-- write: the views of a sheet with the flags that matter, the tiles asked for so far and whether the
-- cursor is still to be centered; `tile` is `hikari_view_tile`, where the parameter `accepts` says
-- whether a client has its size at once, so that the view is tileable again. Algorithms has the
-- layouts, of which `line_layout` is the macro SPLIT_LAYOUT, `grow` and `grid_size` the loop that sizes
-- a grid and `run_layout` the macro LAYOUT; Split has the functions of split.c of the same names, Apply
-- `hikari_sheet_apply_split` with `show_tileable`, `hikari_sheet_first_tileable_view` and
-- `raise_floating`. A read through NULL is the outcome `crash`. Scan, Takes and Contract say how a walk
-- over the views goes on, and `Takes` is what a layout owes them; Grid, Run, Splitting, Copying, Showing
-- and Applying follow the code up from there. Rows is about the boxes that a row's views get.
--
-- Reflow models src/reflow.c: the queue, and as a record Env what it asks of the server. Draining is the
-- idle handler, Scheduling the queue over time. Text models include/hikari/utf8.h,
-- src/input_buffer.c and src/completion.c: bytes are numbers, RoundTrip, Decoding and Canonical set
-- the two directions of UTF-8 against each other, Typing and Editing describe the buffer as a stack of
-- bytes, Completing the completions as a ring; `remove_word` runs on fuel, and one step for each byte
-- is enough. Marks models src/mark.c.
--
-- The modules of Workspace model the sheets of src/workspace.c and src/sheet.c. Sheets has `hikari_sheet_next`,
-- `hikari_sheet_prev` and the loop CYCLE_INHABITED, Display `display_sheet` and its callers,
-- Pinning `hikari_view_pin_to_sheet` of src/view.c, Clearing `hikari_workspace_clear`.
--
-- A view, a group, an output, a workspace is a number; the sheet `nr` of the workspace `w` is the
-- number 10 * w + nr. The loop CYCLE_INHABITED runs on fuel and gives none without it; nine steps are
-- enough from the sheets 1 to 9 (Workspace/Cycling). A reversed walk meets each link twice at most,
-- so its fuel is twice the length of the list and one.
--
-- The modules of Operations model the geometry of one view in src/view.c. Window has the boxes of a view, the two
-- pointers to them as a Slot each, and as a record Context what is asked of its output, of the configuration and of
-- its client; the client's `resize` is a parameter that gives a serial, 0 if the size is there at once. Commit has
-- `commit_operation` with what each commit does (`reset_state` is `commit_reset` before it calls
-- `commit_pending_operation`, and so on), Queue the functions `queue_` and the requests that call them, Move the moves
-- and resizes by hand. A read through a pointer to a box that has been freed is the result none. Requests lists what is
-- asked of a view over time; Sound, Queuing and Running show what all of it keeps; Settling, Restoring and Fullscreen
-- follow a view into fullscreen and back; Pinned and Dragging are about toggles, and about moves while operations are in flight.
-- Migration, unmapping and a client that resizes itself are not among the requests. The linkage that a commit changes is that of Stacking, and only the flag `hidden` is kept here.
--
-- The modules of Ipc model src/ipc.c. Strings has what the C library does with text, for bytes below 256; Requests
-- the handlers, with `dispatch` of a line; Socket the clients, their buffers and descriptors, where what the kernel answers comes
-- with each event. Parsing is about the numbers and the text of the state, Clients about the
-- bookkeeping, Serving and Running about what requests do to the views, Ending about one conversation. A view that
-- is dirty is known by a parameter of the event, as are the names of the outputs.
--
-- The modules of Animation model src/animation.c for one view. Motion has the state and the functions, Ticking shows
-- when the record of where the node is true, and Landing where the node comes to be. A view is placed by
-- `place_node`, as src/view.c does it, moved with its output by `relayout` and to another one by `change_output`; the clock is an argument, and what `double` does is an interface.
--
-- Not modelled: damage, the other scene nodes, seat and pointer events, the bars and every other
-- call of wlroots, which read this state and do not write it; the restacking and cycling of
-- src/layout.c and src/tile.c; the geometry that a split's container remembers, which nothing reads;
-- the migration of views between outputs; the listening socket and partial writes; configuration and drawing. Assertions are not modelled.
pub mod Prelude
pub mod Geometry
pub mod Stacking
pub mod Layout
pub mod Workspace
pub mod Reflow
pub mod Text
pub mod Marks
pub mod Animation
pub mod Ipc
pub mod Operations
