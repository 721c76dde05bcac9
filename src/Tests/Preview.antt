-- ===== src/Tests/Preview.antt =====
-- A path that changes while the picture of another is loaded.
use workflowui.Base.{refl, String, some, [], ◌∷◌}
use workflowui.Preview.{Preview, init, on_timer}
use workflowui.Preview.Current.{answer_all, changed}

abbrev same_text : String → String
same_text t = t

-- the answer for the first path comes before the timer of the second
abbrev renamed : Preview
renamed = changed same_text "/b.png" refl (on_timer (changed same_text "/a.png" refl init))

abbrev waiting : Preview
waiting = answer_all [] (on_timer (answer_all ((1, some "old") ∷ []) renamed))
