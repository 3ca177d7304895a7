-- ===== src/Lib.antt =====
-- Verification of Alya: its batch processing service, in jobs/, the middlewares of its HTTP
-- router, in router/, the binding and validation of requests, in restutils/ and wscutils/, and
-- its dependency injection generator, in cmd/alya-di/.
--
-- A client submits a batch of rows or a slow query, which is a batch of one row on line 0. The
-- service keeps both in two tables of Postgres; workers claim blocks of queued rows, run the
-- application's processors on them, and summarise a batch when no row of it is pending. Redis
-- caches the status of a batch, and keeps which worker is processing which row, so that the rows
-- of a worker that died can be queued again.
--
-- Prelude and its children pass on the library's names and add lists, tests and machine integers.
-- Jobs.Status, Jobs.Types and Jobs.Db have the data: the enumerations and rows of
-- jobs/pg/batchsqlc/models.go and the values of jobs/types.go. Jobs.Queries has one function on
-- the tables for each statement of jobs/pg/batchsqlc/batch.sql.go that the functions call, in
-- Reads and Writes. Jobs.Tables has the well-formedness of the tables.
--
-- Jobs.Machine says how a function of the service runs: on a world (the tables, what the open
-- transaction has written, Redis, the object store, the init blocks, the calls of MarkDone) to a
-- result or an error, and a world. Every call of Postgres, Redis or the object store may fail, as
-- the environment decides by the number of calls made so far. A statement on the pool takes
-- effect at once; one on the transaction takes effect at its commit. Clock, UUIDs, JSON, text
-- functions, processors and initializers are the environment's functions, with no assumption on
-- them but what a theorem's hypotheses say. Effects, Invariants, Within and Untouched have the
-- rules by which a property of a function follows from its shape; Jobs.Tables.Closed says which
-- properties of the tables every statement keeps, and the files named Kept draw it up to the
-- service.
--
-- Jobs.Batch is jobs/batch.go (BatchSubmit, BatchAppend, WaitOff, BatchAbort), Jobs.BatchStatus
-- its BatchStatus, Jobs.BatchDone its BatchDone, Jobs.SlowQuery the submission and abort of
-- jobs/slowquery.go, Jobs.SlowQueryDone its SlowQueryDone, Jobs.Registry the registration of
-- processors and initializers, Jobs.Cache the cache writes of jobs/batchsummary.go, Jobs.Summary
-- its summarizeBatch with the output files, Jobs.Completed summarizeCompletedBatches of
-- jobs/jobmanager.go and the sweep of jobs/recovery.go, Jobs.Recovery the recovery of
-- jobs/recovery.go, Jobs.Worker.Claim the first transaction of RunOneIterationWithContext in
-- jobs/jobmanager.go, Jobs.Worker.Process its processRow with what that calls, Jobs.Worker.Errors
-- its loop over a block with handleProcessingError, and Jobs.Worker.Iteration the iteration as a
-- whole with the rounds of Run and RunWithContext around it, with the pause of Jobs.Worker.Sleep.
-- Jobs.FileXfr is jobs/filexfr/: Server its filexfr.go and Infiled its infiled.go, the daemon
-- that polls directories for files and submits a batch for each; they run on a site, which is the
-- world of Jobs.Machine with the object store, the files and the table of batch files.
-- Jobs.Service puts the operations of clients and workers in any sequence. Jobs.Fixture has the
-- tables and the environment of the examples.
--
-- DiGen.Gen is cmd/alya-di/main.go: main and runGen, which read a declaration, resolve it and
-- write the emitted code. DiGen.Load is cmd/alya-di/load.go: Syntax has the trees of go/ast as far
-- as the loader tells their cases apart, with what go/types and go/format say of them as
-- parameters; Packages is loadPackageContext, Parse the arguments of the options, and Merge
-- mergeGraphExpr and parseGraph with the imports. The recursion into included modules takes fuel,
-- one more than the package's variables. Expansion is what a declaration means, with no fuel.
-- DiGen.Model has the types of cmd/alya-di/model.go and DiGen.Resolve is cmd/alya-di/resolve.go:
-- resolveGraph, which orders the declared providers for the generated code. Its recursion takes
-- fuel, one more than the declared providers. A type is its key and what baseTypeName reads of
-- it; the decimal text of a number and go/parser are parameters. DiGen.Names is the choice of the
-- local names in cmd/alya-di/emit.go; its search for a free number takes fuel, one more than the
-- names in use. DiGen.Emit has the App type and the Build function that emit.go writes, as data;
-- the text of an expression and of the file, from go/parser and jennifer, is a parameter.
--
-- Router.Timeout is TimeoutMiddleware of router/timeout_middelware.go: a request is a state with
-- the points that its goroutine and the handler's have reached, the two channels, the context and
-- the calls made on gin's writer; a step is one access of one of them, and a run is any sequence
-- of steps. The handler may do anything at any time. Router.Logging is
-- router/logging_middleware.go, which reads the keys that the timeout left. Router.Auth is
-- router/auth_middleware.go, with the OIDC provider, the JWT parser and the cache as parameters;
-- its Trust has the interface of the cache, which the one on Redis fills. Router.Errors has the
-- registered ids and codes.
--
-- Restutils.Bind is restutils/bind.go, over a JSON decoder that is a parameter, Restutils.Problem
-- restutils/problem.go and restutils/response.go, and Restutils.Rules the rules of
-- restutils/validate.go, over what go-playground/validator says of a value. Wscutils.Optional is
-- the type Optional of wscutils/wscutils.go with its methods, over the JSON of its value type,
-- Wscutils.Messages its messages and the two validators of wscutils/, and Wscutils.Http the
-- binding of requests of wscutils/wscutils.go and wscutils/http_v2.go.
--
-- In jobs/ one function runs at a time: what another worker does in between is not modelled,
-- except for the rows that it has locked and for its holding a batch's advisory lock. A key of
-- Redis does not expire during a call. The retry loop runs on the five attempts that the code
-- makes; the supervisor's and the daemon's endless loops are any number of their first rounds;
-- every other loop of jobs/ is over a list. The text of error messages, logging and metrics are
-- left out. Not modelled are the tickers that repeat the heartbeat, the recovery and the sweep
-- (each tick is one call), a hijacked connection and the set-up of gin's engine in router/, and
-- the other packages. Where the model is narrower than the code: the chunk of a claim is a natural
-- number, which the code passes as an int32; the rows of one submission have one time of request,
-- where the code reads the clock for each; go/types gives the loader a type for every argument
-- that it asks about, where the code panics on none; and of two local names for one type the first
-- is taken, where the code takes the last, which differs only for declarations that the resolver
-- refuses.
pub mod Prelude
pub mod Jobs
pub mod DiGen
pub mod Wscutils
pub mod Router
pub mod Restutils
