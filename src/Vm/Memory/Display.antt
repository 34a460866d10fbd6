-- ===== src/Vm/Memory/Display.antt =====
-- vm/memory.rs: the memory that the running code sees, and its text.
use icn_covm.Prelude.{
  ℕ, suc, Option, none, some, List, [], ◌∷◌, ◌++◌, Text, text, Dict, insert, get_elem?,
  if◌then◌else◌,
}
use icn_covm.Prelude.Decimal.{print}
use icn_covm.Vm.Values.{Floats, TypedValue, text_less, to_text}
use icn_covm.Vm.Memory.{VmMemory, CallFrame, current}

abbrev insert_all : {V : Type 0} → Dict V → Dict V → Dict V
insert_all [] d = d
insert_all ((k, v) ∷ entries) d = insert_all entries (insert k v d)

abbrev merged : {V : Type 0} → Option (CallFrame V) → Dict V → Dict V
merged none memory = memory
merged (some frame) memory = insert_all frame.memory (insert_all frame.params memory)

unfoldable pub get_memory_map : {V Ops : Type 0} → VmMemory V Ops → Dict V
get_memory_map m = merged (current m.call_stack m.call_frames) m.memory

-- `sort` of strings
abbrev insert_text : Text → List Text → List Text
insert_text t [] = t ∷ []
insert_text t (u ∷ us) =
    let rest = insert_text t us in if text_less u t then u ∷ rest else t ∷ u ∷ us

abbrev sort_texts : List Text → List Text
sort_texts [] = []
sort_texts (t ∷ ts) = insert_text t (sort_texts ts)

abbrev pub join : List Text → Text → Text
join [] separator = []
join (t ∷ []) separator = t
join (t ∷ (u ∷ us)) separator = t ++ (separator ++ join (u ∷ us) separator)

abbrev pub newline : Text
newline = 10 ∷ []

module _ (N : Floats) where
  open N use {F}

  abbrev memory_items : Dict (TypedValue F) → List Text
  memory_items [] = []
  memory_items ((k, v) ∷ entries) = (k ++ (text ": " ++ to_text N v)) ∷ memory_items entries

  abbrev listed : List Text → Text
  listed [] = text "Memory: {}"
  listed (t ∷ ts) =
      text "Memory: {"
      ++ (newline
          ++ (text "  "
              ++ (join (t ∷ ts) (text "," ++ (newline ++ text "  ")) ++ (newline ++ text "}"))))

  unfoldable pub format_memory : {Ops : Type 0} → VmMemory (TypedValue F) Ops → Text
  format_memory m = listed (sort_texts (memory_items (get_memory_map m)))

  -- the call stack from its oldest frame on, numbered
  abbrev name_at : Option (CallFrame (TypedValue F)) → Text
  name_at none = []
  name_at (some frame) = frame.function_name

  abbrev reversed : List ℕ → List ℕ → List ℕ
  reversed [] done = done
  reversed (i ∷ is) done = reversed is (i ∷ done)

  abbrev frame_items : ℕ → List ℕ → List (CallFrame (TypedValue F)) → List Text
  frame_items i [] frames = []
  frame_items i (j ∷ js) frames =
      (print i ++ (text ". " ++ name_at (get_elem? frames j))) ∷ frame_items (suc i) js frames

  abbrev call_stack_text : List ℕ → List (CallFrame (TypedValue F)) → Text
  call_stack_text stack [] = text "Call Stack: []"
  call_stack_text stack (f ∷ frames) =
      text "Call Stack: ["
      ++ (join (frame_items 0 (reversed stack []) (f ∷ frames)) (text ", ") ++ text "]")

  unfoldable pub format_call_stack : {Ops : Type 0} → VmMemory (TypedValue F) Ops → Text
  format_call_stack m = call_stack_text m.call_stack m.call_frames

  abbrev function_lines : {B : Type 0} → Dict B → Text
  function_lines [] = []
  function_lines ((name, f) ∷ functions) =
      text "  " ++ (name ++ (newline ++ function_lines functions))

  abbrev functions_text : {B : Type 0} → Dict B → Text
  functions_text [] = []
  functions_text (f ∷ functions) =
      text "Functions: [" ++ (newline ++ (function_lines (f ∷ functions) ++ (text "]" ++ newline)))

  -- `Display`; the functions stand in the order of the map
  unfoldable pub show_memory : {Ops : Type 0} → VmMemory (TypedValue F) Ops → Text
  show_memory m =
      format_memory m
      ++ (newline ++ (format_call_stack m ++ (newline ++ functions_text m.functions)))
