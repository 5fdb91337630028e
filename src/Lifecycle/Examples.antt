-- ===== src/Lifecycle/Examples.antt =====
-- main.go: the process ends while running.json is open and empty.
use syscap.Base.{◌≢◌, ◌↔◌}
use syscap.Lifecycle.{Reach, returned_nil, waiting, running_opened, returned_nil_iff}

returned_nil_iff_example :
    Reach (record { loop = returned_nil; stage = running_opened }) ↔ (running_opened ≢ waiting)
returned_nil_iff_example = returned_nil_iff running_opened
