-- ===== src/Lib.antt =====
-- Verification library of integration-service, the Konflux controller that tests the snapshots of an
-- application, starts the nudges of the components that depend on a build, and deletes old
-- snapshots.
--
-- The parts of the program, and the files that model them:
--   pkg/integrationteststatus/integration_test_status.go -> TestStatus. The statuses of the tests of
--     a snapshot are a map by scenario name and a dirty flag; each method is a function from the
--     statuses to the statuses (update_test_status_if_changed for UpdateTestStatusIfChanged, and so
--     on). The controllers write the statuses back only when they are dirty.
--   pkg/dag/verify.go -> Dag. The depth-first search of findCycleInAdjacencyList, with its colours and
--     parents, and the validators ValidateTestGraph and ValidateNudgeGraph on top of it.
--   pkg/dag/utils.go -> Cascade. CascadeFailFastDependents, which fails the tests that wait for a failed
--     one: it walks a test graph of Dag and updates the statuses of TestStatus. RunAfter has the map
--     from GetRunAfterMapForTestGraphNodes, which those statuses take their lists from.
--   snapshot/gcl.go, and alignGCLWithSpecComponents of internal/controller/componentgroup -> Gcl. The
--     global candidate list of a component group: its updates by a build and by an override Snapshot,
--     and its alignment with the spec.
--   snapshot/create.go, components.go, validation.go -> Snapshot, with the components gathered from the
--     candidate lists of nested groups. Prepare has PrepareSnapshot and PrepareParentSnapshot,
--     the new components of a Snapshot and the validation of override Snapshots; Naming has the names,
--     from gitops/snapshot.go, and the retries of CreateSnapshotWithCollisionHandling. The API server,
--     the digest of an image and the setters of metadata are the record Services.
--   gitops/snapshot.go -> Conditions. The marks on the status conditions of a Snapshot and the tests on
--     them, over a record of what apimachinery's meta package offers; Machine is the state machine that
--     they stand for. Promotion has the kinds of a Snapshot, its promotion and the contexts of test
--     scenarios.
--   helpers/integration.go -> Outcome. The outcome of an integration PipelineRun from its TaskRuns.
--   internal/webhook/v1beta2/componentgroup_webhook.go -> Webhook. The admission of component groups,
--     which asks Dag for cycles in their test graphs.
--   api/konflux/v1beta2/nudgeconfig_types.go -> NudgeConfig. The spec of a NudgeConfig, the policy
--     that a target inherits and its validation.
--   tekton/nudging/nudge_batch.go, nudge_batch_validated.go -> NudgeBatch. The batches of the status:
--     Recording has the operations that record builds and failures, Firing those that fire batches
--     and follow their PipelineRuns, Events the sequences of them. They read the policy of
--     NudgeConfig. A source function is its model's name in snake case.
--   cmd/snapshotgc/snapshotgc.go -> SnapshotGc. The rules of what goes, Removal for
--     getSnapshotsForRemoval and Run for the loop over the namespaces.
-- Base holds what they share: Boolean tests and lists on native numbers, maps as association lists
-- (Dict), texts (Text), integers (Int) and the laws of a sort (Sort).
--
-- Maps are association lists read by key; where Go visits a map in random order, the order of the
-- list stands for one such order. Times and durations are counts of nanoseconds unless a file says
-- otherwise. Go integers are unbounded here: the counters count list entries and retries. An operation that Go retries on a
-- conflict is one attempt. What the API server answers is an argument: Cluster for the PipelineRuns
-- of a batch, World for the namespaces of the garbage collector. The vendored helpers that the garbage
-- collector calls are the fields of SnapshotGc.Libraries. Of sort.Slice and sort.Sort the proofs use
-- that they keep every element, and put them in order by a test that is a strict weak order: Base.Sort.
--
-- Fuel: the search of Dag runs on one more than the number of keys and neighbours that the graph
-- lists, and so does the trace of a cycle; find_cycle-Verdict shows that neither runs out. The
-- cascade runs on one more than the number of keys of the graph, since each is queued once;
-- cascade_fail_fast_dependents-IsExplained shows that the queue is then empty. The
-- walk over nested groups runs on 17, since no call lies deeper than 16. The
-- digits of a number run on the number itself.
--
-- Not modelled: the controllers but for the alignment of candidate lists, the reporters to GitHub
-- and GitLab, the builders of Kubernetes objects, the loader but for the nested groups, metrics and
-- tracing, which call other systems; the webhooks of nudge configurations (their validators are
-- modelled), of test scenarios and of Snapshots; the Renovate payload of a
-- batch; the JSON text of the test statuses and its schema; the conditions that a forceFire action
-- leaves; vendored and generated code.
pub mod Base
pub mod Cascade
pub mod Conditions
pub mod Dag
pub mod Gcl
pub mod NudgeBatch
pub mod NudgeConfig
pub mod Outcome
pub mod Snapshot
pub mod SnapshotGc
pub mod TestStatus
pub mod Webhook
